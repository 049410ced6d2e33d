-- ===== src/Git/Tests.antt =====
-- The theorems on proposals of pkg/git/client.go, with a small provider.
use collectorctrl_k8s_code.Common.{
  ℕ, suc, none, [], ◌≡◌, refl, inl, inr, text, errorf, All, strip_prefix,
}
use collectorctrl_k8s_code.Git.{GitClient, propose_change}
use collectorctrl_k8s_code.Git.Proposals.{
  logging, Proposed, LeavesAlone, propose_change-Proposed, propose_change-LeavesAlone,
}

-- A provider that takes every commit and opens no pull request.
abbrev provider : GitClient
provider = record {
  State = ℕ;
  get_file = λ repo branch path s. (inl (errorf (text "missing")), s);
  create_commit = λ req s. (inr (text "c0ffee"), suc s);
  create_pull_request = λ req s. (inl (errorf (text "closed")), s);
  fast_forward = λ req s. (inr (text "c0ffee"), suc s);
  get_latest_commit = λ repo branch s. (inr (text "c0ffee"), s);
  now = λ s. (s, s);
  stamp = λ t. text "20240101-000000";
}

propose_change-Proposed_example :
    Proposed provider
      (text "o/r")
      (text "main")
      (text "f.yaml")
      (text "a: 1")
      (text "t")
      (text "d")
      4
      (inr (text "c0ffee"))
      []
      ((propose_change
        (logging provider)
        (text "o/r")
        (text "main")
        (text "f.yaml")
        (text "a: 1")
        (text "t")
        (text "d")
        (4, [])).1.1)
propose_change-Proposed_example =
    propose_change-Proposed provider (text "o/r") (text "main") (text "f.yaml") (text "a: 1")
      (text "t") (text "d") 4 []

main_is_plain : strip_prefix (text "collectorctrl/config-update-") (text "main") ≡ none
unfolding strip_prefix text
main_is_plain = refl

propose_change-LeavesAlone_example : All (LeavesAlone (text "main")) (
    (propose_change
      (logging provider)
      (text "o/r")
      (text "main")
      (text "f.yaml")
      (text "a: 1")
      (text "t")
      (text "d")
      (4, [])).1.1)
propose_change-LeavesAlone_example =
    propose_change-LeavesAlone provider (text "o/r") (text "main") (text "f.yaml") (text "a: 1")
      (text "t") (text "d") 4 main_is_plain
