-- ===== src/Tests/Authzs.antt =====
-- crates/bale-server-authz-mem/src/lib.rs with one user.
use baleforgit.Prelude.{[], arith, err, if◌then◌else◌, ltb, ok, refl, ◌∷◌, ◌≡◌}
use baleforgit.Authz.{check_repo_access, ct_eq, grant}
use baleforgit.Authz.CtEq.{ct_eq-eq_bytes}
use baleforgit.Authz.Grants.{
  IsConfig, check_repo_access-grant, elsewhere, grant-IsConfig, kept_user, rank,
}
use baleforgit.Authz.History.{
  Grant, check_repo_access-grant_all, first_user, grant_all, granted_access, last_scope, nobody,
}
use baleforgit.Core.{RepoRef, RepoType, Scope, Text, eq_bytes, forbidden}
use baleforgit.Table.{get}

abbrev a_token : Text
a_token = b't' ∷ b'1' ∷ []

abbrev b_token : Text
b_token = b't' ∷ b'2' ∷ []

abbrev alice : Text
alice = b'a' ∷ []

abbrev ours : RepoRef
ours = record { repo_type = RepoType.model; repo_id = b'a' ∷ b'/' ∷ b'x' ∷ []; revision = [] }

nobody-IsConfig : IsConfig nobody
nobody-IsConfig = record { once = tt; short = tt }

ct_eq-eq_bytes_example : ct_eq a_token b_token ≡ eq_bytes b_token a_token
ct_eq-eq_bytes_example = ct_eq-eq_bytes a_token b_token (omega arith) (omega arith)

abbrev theirs : RepoRef
theirs = record ours { repo_id = b'b' ∷ b'/' ∷ b'y' ∷ [] }

abbrev reads_ours : Grant
reads_ours = record {
  hub_token = a_token;
  user_id = alice;
  repo_id = ours.repo_id;
  scope = Scope.read;
}

abbrev writes_theirs : Grant
writes_theirs = record reads_ours {
  user_id = b'z' ∷ [];
  repo_id = theirs.repo_id;
  scope = Scope.write;
}

check_repo_access-grant_all_example :
    check_repo_access (grant_all (writes_theirs ∷ reads_ours ∷ [])) a_token ours Scope.read
    ≡ granted_access
        (first_user a_token (writes_theirs ∷ reads_ours ∷ []))
        (last_scope a_token ours.repo_id (writes_theirs ∷ reads_ours ∷ []))
        Scope.read
check_repo_access-grant_all_example =
    check_repo_access-grant_all (writes_theirs ∷ reads_ours ∷ []) a_token ours Scope.read
      (omega arith, (omega arith, tt)) (omega arith)

still_alice :
    check_repo_access (grant_all (writes_theirs ∷ reads_ours ∷ [])) a_token ours Scope.read
    ≡ ok alice
unfolding check_repo_access grant_all
still_alice = refl

one_grant : IsConfig (grant a_token alice ours.repo_id Scope.read nobody)
one_grant =
    grant-IsConfig a_token alice ours.repo_id Scope.read nobody (omega arith) nobody-IsConfig

-- the token has a grant, and gets another one for another repository
check_repo_access-grant_example :
    check_repo_access
      (grant a_token
        (b'z' ∷ [])
        theirs.repo_id
        Scope.write
        (grant a_token alice ours.repo_id Scope.read nobody))
      a_token
      ours
      Scope.read
    ≡ (if eq_bytes a_token a_token
        then (if eq_bytes ours.repo_id theirs.repo_id
            then (if ltb (rank Scope.write) (rank Scope.read)
                then err forbidden
                else ok (
                    kept_user
                      (b'z' ∷ [])
                      (get a_token (grant a_token alice ours.repo_id Scope.read nobody).users)))
            else elsewhere
                (get a_token (grant a_token alice ours.repo_id Scope.read nobody).users)
                (check_repo_access
                  (grant a_token alice ours.repo_id Scope.read nobody)
                  a_token
                  ours
                  Scope.read))
        else check_repo_access
            (grant a_token alice ours.repo_id Scope.read nobody)
            a_token
            ours
            Scope.read)
check_repo_access-grant_example =
    check_repo_access-grant a_token (b'z' ∷ []) theirs.repo_id Scope.write
      (grant a_token alice ours.repo_id Scope.read nobody) a_token ours Scope.read (omega arith)
      (omega arith) one_grant

-- the same run, evaluated
read_only :
    check_repo_access (grant a_token alice ours.repo_id Scope.read nobody) a_token ours Scope.write
    ≡ err forbidden
unfolding check_repo_access grant
read_only = refl
