-- ===== src/Authz/Grants.antt =====
-- What access the grants give.
use baleforgit.Prelude.{
  All, Bool-cases, List, Option, Result, [], ap, err, if◌then◌else◌, inl, inr, length, ltb, none,
  ok, refl, some, subst, sym, ℕ, ◌<◌, ◌^◌, ◌∙◌, ◌∷◌, ◌≡◌,
}
use baleforgit.Authz.{
  ConfigAuthz, ConfigUser, check_grant, check_repo_access, check_user, ct_eq, entry_or, exceeds,
  find_user, grant,
}
use baleforgit.Authz.CtEq.{ct_eq-eq_bytes}
use baleforgit.Core.{Bytes, CoreError, RepoRef, Scope, Text, eq_bytes, forbidden}
use baleforgit.Table.{
  IsMap, eq_bytes_sound, get, get-insert, get-insert_other, insert, insert-IsMap, insert-keys,
}

abbrev pub IsShort : Text → Type 0
IsShort t = length t < 2 ^ 32

-- Each hub token stands once, and is shorter than 4 GiB.
pub record IsConfig (authz : ConfigAuthz) : Type 0 where
  pub once : IsMap authz.users
  pub short : All (λ e. IsShort e.0) authz.users

abbrev pub or_else {ℓ} : {A : Type ℓ} → Option A → Option A → Option A
or_else none found = found
or_else (some a) found = some a

-- The loop over all users finds what a lookup of the token would.
find_user-get :
    (found : Option ConfigUser) (bearer : Text) (users : List (Text × ConfigUser))
    → IsShort bearer
    → IsMap users
    → All (λ e. IsShort e.0) users
    → find_user found bearer users ≡ or_else (get bearer users) found
unfolding find_user get
find_user-get found bearer [] b m s = refl
find_user-get found bearer (e ∷ users) b m s =
    let same : ct_eq e.0 bearer ≡ eq_bytes bearer e.0 = ct_eq-eq_bytes e.0 bearer s.0 b in
    elim (Bool-cases (eq_bytes bearer e.0)) [
      | inl p ↦
          let key : e.0 ≡ bearer = sym (eq_bytes_sound bearer e.0 p) in
          let last : get bearer users ≡ none = subst (λ (k : Bytes). get k users ≡ none) key m.0 in
          rw (same, p, get)
            (find_user-get (some e.1) bearer users b m.1 s.1 ∙ ap (λ o. or_else o (some e.1)) last)
      | inr p ↦ rw (same, p, get) (find_user-get found bearer users b m.1 s.1)
    ]

or_else-none : {A : Type 0} (o : Option A) → or_else o none ≡ o
or_else-none none = refl
or_else-none (some a) = refl

pub check_repo_access-get :
    (authz : ConfigAuthz) (bearer : Text) (repo : RepoRef) (requested : Scope)
    → IsConfig authz
    → IsShort bearer
    → check_repo_access authz bearer repo requested
      ≡ check_user (get bearer authz.users) repo requested
unfolding check_repo_access
check_repo_access-get authz bearer repo requested v b =
    ap (λ o. check_user o repo requested)
      (find_user-get none bearer authz.users b v.once v.short
        ∙ or_else-none (get bearer authz.users))

pub grant-IsConfig :
    (token user_id repo_id : Text) (scope : Scope) (authz : ConfigAuthz)
    → IsShort token
    → IsConfig authz
    → IsConfig (grant token user_id repo_id scope authz)
unfolding grant
grant-IsConfig token user_id repo_id scope authz t v =
    let entry : ConfigUser = entry_or user_id (get token authz.users) in
    let user : ConfigUser = record entry { repos = insert repo_id scope entry.repos } in
    record {
      once = insert-IsMap token user authz.users v.once;
      short = insert-keys IsShort token user authz.users t v.short;
    }

-- reading is less than writing
abbrev pub rank : Scope → ℕ
rank Scope.read = 0
rank Scope.write = 1

pub exceeds-rank :
    (requested granted : Scope) → exceeds requested granted ≡ ltb (rank granted) (rank requested)
exceeds-rank Scope.read Scope.read = refl
exceeds-rank Scope.read Scope.write = refl
exceeds-rank Scope.write Scope.read = refl
exceeds-rank Scope.write Scope.write = refl

-- The user that a token has after a grant: the one that it had, if any.
abbrev pub kept_user : Text → Option ConfigUser → Text
kept_user user_id none = user_id
kept_user user_id (some u) = u.user_id

entry_or-kept_user :
    (user_id : Text) (o : Option ConfigUser) → (entry_or user_id o).user_id ≡ kept_user user_id o
entry_or-kept_user user_id none = refl
entry_or-kept_user user_id (some u) = refl

-- Access of a token to a repository that its last grant does not name: a token that was not known before
-- is now, and everything else is forbidden to it.
abbrev pub elsewhere : Option ConfigUser → Result CoreError Text → Result CoreError Text
elsewhere none before = err forbidden
elsewhere (some u) before = before

-- After a grant its token has access to its repository in just the scopes that the granted one covers,
-- as the user that the token had, or the granted one where it had none. To every other repository the
-- token has the access that it had, or, where it was not known, none. Every other token has the access that it had, to any
-- repository.
pub check_repo_access-grant :
    (token user_id repo_id : Text) (scope : Scope) (authz : ConfigAuthz) (bearer : Text)
    (repo : RepoRef) (requested : Scope)
    → IsShort token
    → IsShort bearer
    → IsConfig authz
    → check_repo_access (grant token user_id repo_id scope authz) bearer repo requested ≡ (
        if eq_bytes bearer token
        then (if eq_bytes repo.repo_id repo_id
            then (if ltb (rank scope) (rank requested)
                then err forbidden
                else ok (kept_user user_id (get token authz.users)))
            else elsewhere (get token authz.users) (check_repo_access authz token repo requested))
        else check_repo_access authz bearer repo requested)
unfolding grant check_user check_grant
check_repo_access-grant token user_id repo_id scope authz bearer repo requested t b v =
    let after : ConfigAuthz = grant token user_id repo_id scope authz in
    let v' : IsConfig after = grant-IsConfig token user_id repo_id scope authz t v in
    let entry : ConfigUser = entry_or user_id (get token authz.users) in
    let user : ConfigUser = record entry { repos = insert repo_id scope entry.repos } in
    let now = check_repo_access-get after bearer repo requested v' b in
    elim (Bool-cases (eq_bytes bearer token)) [
      | inr other ↦ rw other (
          now
          ∙ ap (λ o. check_user o repo requested)
              (get-insert_other bearer token user authz.users other)
          ∙ sym (check_repo_access-get authz bearer repo requested v b))
      | inl e ↦
          let found : get bearer after.users ≡ some user =
            ap (λ k. get k after.users) (eq_bytes_sound bearer token e)
            ∙ get-insert token user authz.users in
          let here = now ∙ ap (λ o. check_user o repo requested) found in
          elim (Bool-cases (eq_bytes repo.repo_id repo_id)) [
            | inl same ↦
                rw (e, same)
                  (here
                    ∙ ap (λ o. check_grant o requested entry.user_id)
                        (ap (λ k. get k user.repos) (eq_bytes_sound repo.repo_id repo_id same)
                          ∙ get-insert repo_id scope entry.repos)
                    ∙ ap (λ x. if x then err forbidden else ok entry.user_id)
                        (exceeds-rank requested scope)
                    ∙ ap (λ n. if ltb (rank scope) (rank requested) then err forbidden else ok n)
                        (entry_or-kept_user user_id (get token authz.users)))
            | inr apart ↦
                rw (e, apart)
                  (here
                    ∙ ap (λ o. check_grant o requested entry.user_id)
                        (get-insert_other repo.repo_id repo_id scope entry.repos apart)
                    ∙ earlier (get token authz.users)
                    ∙ ap (elsewhere (get token authz.users))
                        (sym (check_repo_access-get authz token repo requested v t)))
          ]
    ]
  where
    earlier :
        (o : Option ConfigUser)
        → check_grant
            (get repo.repo_id (entry_or user_id o).repos)
            requested
            (entry_or user_id o).user_id
          ≡ elsewhere o (check_user o repo requested)
    earlier none = refl
    earlier (some u) = refl
