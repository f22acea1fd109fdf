-- ===== src/Authz/History.antt =====
-- The access after any grants, from the grants alone.
use baleforgit.Prelude.{
  All, Bool-cases, List, Option, Result, [], ap, err, if◌then◌else◌, inl, inr, ltb, none, ok, refl,
  some, sym, ◌&&◌, ◌∙◌, ◌∷◌, ◌≡◌,
}
use baleforgit.Authz.{
  ConfigAuthz, ConfigUser, check_grant, check_repo_access, check_user, entry_or, grant,
}
use baleforgit.Authz.Grants.{
  IsConfig, IsShort, check_repo_access-get, exceeds-rank, grant-IsConfig, rank,
}
use baleforgit.Core.{CoreError, RepoRef, Scope, Text, eq_bytes, forbidden, unauthorized}
use baleforgit.Table.{eq_bytes_sound, get, get-insert, get-insert_other, insert}
use mathlib.Core.Path.{ap₂}

pub record Grant : Type 0 where
  pub hub_token : Text
  pub user_id : Text
  pub repo_id : Text
  pub scope : Scope

abbrev pub nobody : ConfigAuthz
nobody = record { users = [] }

-- `ConfigAuthz::new(…).grant(…).grant(…)`, the latest grant first
unfoldable pub grant_all : List Grant → ConfigAuthz
unfolding grant
grant_all [] = nobody
grant_all (g ∷ gs) = grant g.hub_token g.user_id g.repo_id g.scope (grant_all gs)

abbrev pub or_this : Text → Option Text → Text
or_this user_id none = user_id
or_this user_id (some u) = u

-- The user of the first grant of a token.
unfoldable pub first_user : Text → List Grant → Option Text
unfolding eq_bytes
first_user token [] = none
first_user token (g ∷ gs) =
    let older = first_user token gs in
    if eq_bytes token g.hub_token then some (or_this g.user_id older) else older

-- The scope of the last grant of a token that names the repository.
unfoldable pub last_scope : Text → Text → List Grant → Option Scope
unfolding eq_bytes
last_scope token repo_id [] = none
last_scope token repo_id (g ∷ gs) =
    let older = last_scope token repo_id gs in
    if eq_bytes token g.hub_token && eq_bytes repo_id g.repo_id then some g.scope else older

abbrev pub granted_access : Option Text → Option Scope → Scope → Result CoreError Text
granted_access none scope requested = err unauthorized
granted_access (some user_id) none requested = err forbidden
granted_access (some user_id) (some scope) requested =
    if ltb (rank scope) (rank requested) then err forbidden else ok user_id

abbrev user_name : Option ConfigUser → Option Text
user_name none = none
user_name (some u) = some u.user_id

abbrev user_scope : Text → Option ConfigUser → Option Scope
user_scope repo_id none = none
user_scope repo_id (some u) = get repo_id u.repos

grant_all-user_name :
    (token : Text) (gs : List Grant)
    → user_name (get token (grant_all gs).users) ≡ first_user token gs
unfolding grant_all first_user grant get
grant_all-user_name token [] = refl
grant_all-user_name token (g ∷ gs) =
    let before : ConfigAuthz = grant_all gs in
    let entry : ConfigUser = entry_or g.user_id (get g.hub_token before.users) in
    let user : ConfigUser = record entry { repos = insert g.repo_id g.scope entry.repos } in
    elim (Bool-cases (eq_bytes token g.hub_token)) [
      | inr other ↦ rw other (
          ap user_name (get-insert_other token g.hub_token user before.users other)
          ∙ grant_all-user_name token gs)
      | inl e ↦
          let same : token ≡ g.hub_token = eq_bytes_sound token g.hub_token e in
          rw e (
            ap user_name (
              ap (λ k. get k (insert g.hub_token user before.users)) same
              ∙ get-insert g.hub_token user before.users)
            ∙ ap some (
                first_name (get g.hub_token before.users)
                ∙ ap (or_this g.user_id) (
                    ap (λ k. user_name (get k before.users)) (sym same)
                    ∙ grant_all-user_name token gs)))
    ]
  where
    first_name :
        (o : Option ConfigUser) → (entry_or g.user_id o).user_id ≡ or_this g.user_id (user_name o)
    first_name none = refl
    first_name (some u) = refl

grant_all-user_scope :
    (token repo_id : Text) (gs : List Grant)
    → user_scope repo_id (get token (grant_all gs).users) ≡ last_scope token repo_id gs
unfolding grant_all last_scope grant get
grant_all-user_scope token repo_id [] = refl
grant_all-user_scope token repo_id (g ∷ gs) =
    let before : ConfigAuthz = grant_all gs in
    let entry : ConfigUser = entry_or g.user_id (get g.hub_token before.users) in
    let user : ConfigUser = record entry { repos = insert g.repo_id g.scope entry.repos } in
    elim (Bool-cases (eq_bytes token g.hub_token)) [
      | inr other ↦ rw other (
          ap (user_scope repo_id) (get-insert_other token g.hub_token user before.users other)
          ∙ grant_all-user_scope token repo_id gs)
      | inl e ↦
          let same : token ≡ g.hub_token = eq_bytes_sound token g.hub_token e in
          let found : get token (insert g.hub_token user before.users) ≡ some user =
            ap (λ k. get k (insert g.hub_token user before.users)) same
            ∙ get-insert g.hub_token user before.users in
          elim (Bool-cases (eq_bytes repo_id g.repo_id)) [
            | inl this ↦
                rw (e, this)
                  (ap (user_scope repo_id) found
                    ∙ ap (λ k. get k user.repos) (eq_bytes_sound repo_id g.repo_id this)
                    ∙ get-insert g.repo_id g.scope entry.repos)
            | inr apart ↦
                rw (e, apart)
                  (ap (user_scope repo_id) found
                    ∙ get-insert_other repo_id g.repo_id g.scope entry.repos apart
                    ∙ old_scope (get g.hub_token before.users)
                    ∙ ap (λ k. user_scope repo_id (get k before.users)) (sym same)
                    ∙ grant_all-user_scope token repo_id gs)
          ]
    ]
  where
    old_scope :
        (o : Option ConfigUser) → get repo_id (entry_or g.user_id o).repos ≡ user_scope repo_id o
    old_scope none = refl
    old_scope (some u) = refl

grant_all-IsConfig : (gs : List Grant) → All (λ g. IsShort g.hub_token) gs → IsConfig (grant_all gs)
unfolding grant_all
grant_all-IsConfig [] h = record { once = tt; short = tt }
grant_all-IsConfig (g ∷ gs) h =
    grant-IsConfig g.hub_token g.user_id g.repo_id g.scope (grant_all gs) h.0
      (grant_all-IsConfig gs h.1)

check_user-granted_access :
    (o : Option ConfigUser) (repo : RepoRef) (requested : Scope)
    → check_user o repo requested
      ≡ granted_access (user_name o) (user_scope repo.repo_id o) requested
unfolding check_user check_grant
check_user-granted_access none repo requested = refl
check_user-granted_access (some u) repo requested = covered (get repo.repo_id u.repos)
  where
    covered :
        (s : Option Scope)
        → check_grant s requested u.user_id ≡ granted_access (some u.user_id) s requested
    covered none = refl
    covered (some scope) =
        ap (λ x. if x then err forbidden else ok u.user_id) (exceeds-rank requested scope)

-- After any sequence of grants of tokens shorter than 4 GiB to a configuration without users, the access
-- of a token that short to a repository is what the grants say: the user is that of the token's first
-- grant, and the scope that of its last grant that names the repository, which covers itself and what is
-- below it. A token without a grant is unauthorized, and one without a grant of the repository
-- forbidden.
pub check_repo_access-grant_all :
    (gs : List Grant) (bearer : Text) (repo : RepoRef) (requested : Scope)
    → All (λ g. IsShort g.hub_token) gs
    → IsShort bearer
    → check_repo_access (grant_all gs) bearer repo requested
      ≡ granted_access (first_user bearer gs) (last_scope bearer repo.repo_id gs) requested
check_repo_access-grant_all gs bearer repo requested h b =
    check_repo_access-get (grant_all gs) bearer repo requested (grant_all-IsConfig gs h) b
    ∙ check_user-granted_access (get bearer (grant_all gs).users) repo requested
    ∙ ap₂ (λ u s. granted_access u s requested) (grant_all-user_name bearer gs)
        (grant_all-user_scope bearer repo.repo_id gs)
