-- ===== src/Git.antt =====
-- pkg/git/client.go and pkg/git/stubs.go: committing a changed configuration to a repository. A
-- provider is an interface; the functions take its state and return it.
pub mod Proposals
mod Tests
use collectorctrl_k8s_code.Common.{
  ℕ, Option, List, [], ◌++◌, Text, text, ◌==◌, if◌then◌else◌, ◌⊎◌, inl, inr, GoError, errorf, wrapf,
}

-- A provider is any text; the code has names for four of them.
abbrev pub Provider : Type 0
Provider = Text

abbrev provider_github : Provider
provider_github = text "github"

abbrev provider_gitlab : Provider
provider_gitlab = text "gitlab"

abbrev provider_azure_devops : Provider
provider_azure_devops = text "azuredevops"

abbrev provider_generic : Provider
provider_generic = text "generic"

pub record CommitRequest : Type 0 where
  pub repo : Text
  pub branch : Text
  pub file_path : Text
  pub content : Text
  pub message : Text
  pub author_name : Text
  pub author_email : Text

pub record PullRequestRequest : Type 0 where
  pub repo : Text
  pub title : Text
  pub body : Text
  pub head_branch : Text
  pub base_branch : Text

pub record PullRequestResult : Type 0 where
  pub pr_number : ℕ
  pub pr_url : Text
  pub state : Text

pub record FileResult : Type 0 where
  pub content : Text
  pub sha : Text
  pub commit_sha : Text

-- The interface `Client`, and the clock in seconds beside it. `stamp` is the time in UTC in the
-- layout 20060102-150405.
pub record GitClient : Type 1 where
  pub State : Type 0
  pub get_file : Text → Text → Text → State → (GoError ⊎ FileResult) × State
  pub create_commit : CommitRequest → State → (GoError ⊎ Text) × State
  pub create_pull_request : PullRequestRequest → State → (GoError ⊎ PullRequestResult) × State
  pub fast_forward : CommitRequest → State → (GoError ⊎ Text) × State
  pub get_latest_commit : Text → Text → State → (GoError ⊎ Text) × State
  pub now : State → ℕ × State
  pub stamp : ℕ → Text

pub record Config : Type 0 where
  pub provider : Provider
  pub base_url : Text
  pub auth_token : Text
  pub ssh_private_key : Text
  pub ssh_passphrase : Text
  pub ssh_user : Text
  pub default_author_name : Text
  pub default_author_email : Text

-- The four constructors of stubs.go, by the message that each fails with.
abbrev not_implemented : Text → GoError ⊎ GitClient
not_implemented name = inl (errorf (name ++ text " provider not implemented"))

unfoldable pub new_git_client : Config → GoError ⊎ GitClient
new_git_client cfg =
    if cfg.provider == provider_github
    then not_implemented (text "github")
    else if cfg.provider == provider_gitlab
    then not_implemented (text "gitlab")
    else if cfg.provider == provider_azure_devops
    then not_implemented (text "azure devops")
    else if cfg.provider == provider_generic
    then not_implemented (text "generic")
    else inl (errorf (text "unsupported git provider: " ++ cfg.provider))

abbrev pub commit_to : Text → Text → Text → Text → Text → CommitRequest
commit_to repo branch file_path content message = record {
  repo = repo;
  branch = branch;
  file_path = file_path;
  content = content;
  message = message;
  author_name = [];
  author_email = [];
}

unfoldable pub feature_branch : Text → Text
feature_branch stamp = text "collectorctrl/config-update-" ++ stamp

module _ (git : GitClient) where
  -- `EmergencySync.Apply`
  unfoldable pub apply_emergency :
      Text → Text → Text → Text → Text → git.State → (GoError ⊎ Text) × git.State
  apply_emergency repo branch file_path content reason s =
      git.fast_forward (commit_to repo branch file_path content (text "[EMERGENCY] " ++ reason)) s

  -- Step 2 of `ProposeChange`, after the commit has answered.
  unfoldable pub open_pull_request :
      PullRequestRequest → (GoError ⊎ Text) × git.State → (GoError ⊎ PullRequestResult) × git.State
  open_pull_request req (inl e, s) = (inl (wrapf (text "create commit") e), s)
  open_pull_request req (inr sha, s) = git.create_pull_request req s

  abbrev pub pull_request : Text → Text → Text → Text → Text → PullRequestRequest
  pull_request repo base title description branch = record {
    repo = repo;
    title = title;
    body = description;
    head_branch = branch;
    base_branch = base;
  }

  -- `ConfigSync.ProposeChange`
  unfoldable pub propose_change :
      Text
      → Text
      → Text
      → Text
      → Text
      → Text
      → git.State
      → (GoError ⊎ PullRequestResult) × git.State
  unfolding open_pull_request feature_branch
  propose_change repo base file_path content title description s =
      let (time, s0) = git.now s in
      let branch = feature_branch (git.stamp time) in
      open_pull_request (pull_request repo base title description branch) (
        git.create_commit
          (commit_to repo branch file_path content (text "collectorctrl: " ++ title)) s0)
