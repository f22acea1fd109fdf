-- ===== src/Authz.antt =====
-- crates/bale-server-authz-mem/src/lib.rs: `ConfigAuthz`, whose users and repositories are tables
-- (`Table`). The tokens are not modelled.
pub mod CtEq
pub mod Grants
pub mod History
use baleforgit.Prelude.{
  Bool, List, Option, Result, [], bit_or, bit_xor, err, false, if◌then◌else◌, length, none, ok,
  some, true, ℕ, ◌%◌, ◌==◌, ◌^◌, ◌∷◌,
}
use baleforgit.Core.{Bytes, CoreError, RepoRef, Scope, Text, forbidden, read, unauthorized, write}
use baleforgit.Table.{get, insert}

pub record ConfigUser : Type 0 where
  pub user_id : Text
  pub repos : List (Text × Scope)

pub record ConfigAuthz : Type 0 where
  pub users : List (Text × ConfigUser)

-- The loop of `ct_eq`; `zip` ends with the shorter list.
unfoldable pub fold_differences : ℕ → Bytes → Bytes → ℕ
fold_differences acc [] b = acc
fold_differences acc (x ∷ a) [] = acc
fold_differences acc (x ∷ a) (y ∷ b) = fold_differences (bit_or acc (bit_xor x y)) a b

unfoldable pub ct_eq : Bytes → Bytes → Bool
unfolding fold_differences
ct_eq a b = fold_differences (bit_xor (length a) (length b) % 2 ^ 32) a b == 0

abbrev pub entry_or : Text → Option ConfigUser → ConfigUser
entry_or user_id none = record { user_id = user_id; repos = [] }
entry_or user_id (some u) = u

unfoldable pub grant : Text → Text → Text → Scope → ConfigAuthz → ConfigAuthz
unfolding get insert
grant hub_token user_id repo_id scope authz =
    let entry = entry_or user_id (get hub_token authz.users) in
    record {
      users =
          insert hub_token (record entry { repos = insert repo_id scope entry.repos }) authz.users;
    }

-- The loop over the users: the last that matches.
unfoldable pub find_user : Option ConfigUser → Text → List (Text × ConfigUser) → Option ConfigUser
unfolding ct_eq
find_user found hub_bearer [] = found
find_user found hub_bearer (e ∷ users) =
    find_user (if ct_eq e.0 hub_bearer then some e.1 else found) hub_bearer users

-- `matches!(requested, Scope::Write) && matches!(granted, Scope::Read)`
abbrev pub exceeds : Scope → Scope → Bool
exceeds Scope.write Scope.read = true
exceeds Scope.write Scope.write = false
exceeds Scope.read granted = false

unfoldable pub check_grant : Option Scope → Scope → Text → Result CoreError Text
check_grant none requested user_id = err forbidden
check_grant (some granted) requested user_id =
    if exceeds requested granted then err forbidden else ok user_id

unfoldable pub check_user : Option ConfigUser → RepoRef → Scope → Result CoreError Text
unfolding check_grant get
check_user none repo requested = err unauthorized
check_user (some u) repo requested = check_grant (get repo.repo_id u.repos) requested u.user_id

unfoldable pub check_repo_access : ConfigAuthz → Text → RepoRef → Scope → Result CoreError Text
unfolding check_user find_user
check_repo_access authz hub_bearer repo requested =
    check_user (find_user none hub_bearer authz.users) repo requested
