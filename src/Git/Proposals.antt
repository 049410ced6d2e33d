-- ===== src/Git/Proposals.antt =====
-- What `ProposeChange` of pkg/git/client.go does to a repository.
use collectorctrl_k8s_code.Common.{
  none, some, List, [], ◌∷◌, ◌++◌, ◌≡◌, ◌≢◌, ◌⊎◌, inl, inr, refl, sym, subst, arith, Text, text,
  GoError, All, strip_prefix, Bool, true, false, ◌==◌, if◌then◌else◌,
}
use mathlib.Core.List.{append_assoc}
use collectorctrl_k8s_code.Common.Cut.{strip_prefix-append}
use collectorctrl_k8s_code.Git.{
  Config, new_git_client, CommitRequest, PullRequestRequest, GitClient, commit_to, feature_branch,
  open_pull_request, propose_change,
}

refused_if :
    (b : Bool) (m : GoError) (r : GoError ⊎ GitClient)
    → (e : GoError) × (r ≡ inl e)
    → (e : GoError) × ((if b then inl m else r) ≡ inl e)
refused_if true m r h = (m, refl)
refused_if false m r h = h

-- No configuration gives a client, whatever its provider.
pub new_git_client_refused : (cfg : Config) → (e : GoError) × (new_git_client cfg ≡ inl e)
unfolding new_git_client
new_git_client_refused cfg = refused_if (cfg.provider == text "github") _ _ (
    refused_if (cfg.provider == text "gitlab") _ _ (
      refused_if (cfg.provider == text "azuredevops") _ _
        (refused_if (cfg.provider == text "generic") _ _ (_, refl))))

-- The calls of a provider that change a repository.
pub data GitCall : Type 0 where
  commit : CommitRequest → GitCall
  open_request : PullRequestRequest → GitCall
  fast_forward_to : CommitRequest → GitCall

-- A provider with a log of those calls.
abbrev pub logging : GitClient → GitClient
logging git = record {
  State = git.State × List GitCall;
  get_file =
      λ repo branch path s. let (r, s') = git.get_file repo branch path s.0 in (r, (s', s.1));
  create_commit =
      λ req s. let (r, s') = git.create_commit req s.0 in (r, (s', s.1 ++ commit req ∷ []));
  create_pull_request = λ req s.
      let (r, s') = git.create_pull_request req s.0 in (r, (s', s.1 ++ open_request req ∷ []));
  fast_forward =
      λ req s. let (r, s') = git.fast_forward req s.0 in (r, (s', s.1 ++ fast_forward_to req ∷ []));
  get_latest_commit =
      λ repo branch s. let (r, s') = git.get_latest_commit repo branch s.0 in (r, (s', s.1));
  now = λ s. let (t, s') = git.now s.0 in (t, (s', s.1));
  stamp = git.stamp;
}

-- The branch that a call writes to; a pull request writes to none.
abbrev pub LeavesAlone : Text → GitCall → Type 0
LeavesAlone branch (commit req) = req.branch ≢ branch
LeavesAlone branch (open_request req) = Unit
LeavesAlone branch (fast_forward_to req) = req.branch ≢ branch

module _ (git : GitClient) (repo base file_path content title description : Text)
    (s : git.State) where
  -- The branch that the clock gives.
  abbrev pub proposed_branch : Text
  proposed_branch = feature_branch (git.stamp (git.now s).0)

  abbrev pub proposed_commit : CommitRequest
  proposed_commit =
      commit_to repo proposed_branch file_path content (text "collectorctrl: " ++ title)

  abbrev pub proposed_request : PullRequestRequest
  proposed_request = record {
    repo = repo;
    title = title;
    body = description;
    head_branch = proposed_branch;
    base_branch = base;
  }

  abbrev pub Proposed : (GoError ⊎ Text) → List GitCall → List GitCall → Type 0
  Proposed (inl e) before after = after ≡ before ++ commit proposed_commit ∷ []
  Proposed (inr sha) before after =
      after ≡ before ++ commit proposed_commit ∷ open_request proposed_request ∷ []

  open_pull_request-Proposed :
      (r : GoError ⊎ Text) (t : git.State) (log : List GitCall)
      → Proposed r log (
          (open_pull_request
            (logging git)
            proposed_request
            (r, (t, log ++ commit proposed_commit ∷ []))).1.1)
  unfolding open_pull_request
  open_pull_request-Proposed (inl e) t log = refl
  open_pull_request-Proposed (inr sha) t log =
      append_assoc log (commit proposed_commit ∷ []) (open_request proposed_request ∷ [])

  -- A proposal commits once, to a branch named for the time, and then, only if that commit went
  -- well, opens a pull request from this branch to the base branch; it changes nothing else.
  pub propose_change-Proposed :
      (log : List GitCall)
      → Proposed (git.create_commit proposed_commit (git.now s).1).0 log (
          (propose_change (logging git) repo base file_path content title description (s, log)).1.1)
  unfolding propose_change
  propose_change-Proposed log =
      let r = git.create_commit proposed_commit (git.now s).1 in
      open_pull_request-Proposed r.0 r.1 log

  Proposed-LeavesAlone :
      (r : GoError ⊎ Text) (after : List GitCall)
      → proposed_branch ≢ base
      → Proposed r [] after
      → All (LeavesAlone base) after
  Proposed-LeavesAlone (inl e) after ne h = subst (All (LeavesAlone base)) (sym h) (ne, tt)
  Proposed-LeavesAlone (inr sha) after ne h = subst (All (LeavesAlone base)) (sym h) (ne, (tt, tt))

  proposed_branch_prefixed :
      proposed_branch ≡ base
      → strip_prefix (text "collectorctrl/config-update-") base ≡ some (git.stamp (git.now s).0)
  unfolding feature_branch
  proposed_branch_prefixed h =
      subst
        (λ b. strip_prefix (text "collectorctrl/config-update-") b ≡ some (git.stamp (git.now s).0))
        h (strip_prefix-append _ _)

  -- A base branch whose name does not start as the branches of proposals do is never written to.
  pub propose_change-LeavesAlone :
      strip_prefix (text "collectorctrl/config-update-") base ≡ none
      → All
          (LeavesAlone base)
          ((propose_change (logging git) repo base file_path content title description (s, [])).1.1)
  propose_change-LeavesAlone plain =
      Proposed-LeavesAlone (git.create_commit proposed_commit (git.now s).1).0 _
        (λ e. absurd (ground (arith, plain, proposed_branch_prefixed e)))
        (propose_change-Proposed [])
