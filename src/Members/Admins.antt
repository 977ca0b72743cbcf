-- ===== src/Members/Admins.antt =====
-- An organization keeps at least one ADMIN (backend/app/services/memberships.py).
use Prim.Native.String.{String}
use context_ledger.Base.{
  ℕ, ◌+◌, Bool, ◌≤◌, ◌≡◌, true, false, ◌&&◌, some, List, [], ◌∷◌, ◌==◌, arith, Option-cases, inl,
  inr,
}
use context_ledger.Roles.{MembershipRole, is_admin, TenantContext}
use context_ledger.Db.{Db, OrganizationMembership}
use context_ledger.Authorization.{get_membership}
use context_ledger.Members.{
  count_admins, set_role, delete_member, organization_exists, ensure_another_admin, add_member,
  change_role, remove_member, create_organization, Request, add, change, remove, create, handle,
  handle_all,
}

-- 1 if the test holds.
abbrev bit : Bool → ℕ
bit true = 1
bit false = 0

-- A change of role moves the number of ADMINs by what it does to the row that is found.
count-set_role :
    (o o' u : ℕ) (r : MembershipRole) (m : OrganizationMembership)
    (ms : List OrganizationMembership)
    → get_membership ms o u ≡ some m
    → count_admins o' (set_role o u r ms) + bit (o == o' && is_admin m.role)
      ≡ count_admins o' ms + bit (o == o' && is_admin r)
unfolding get_membership count_admins set_role
count-set_role o o' u r m [] e = cc
count-set_role o o' u r m (x ∷ ms) e = ground (arith, count-set_role o o' u r m ms)

count-delete_member :
    (o o' u : ℕ) (m : OrganizationMembership) (ms : List OrganizationMembership)
    → get_membership ms o u ≡ some m
    → count_admins o' (delete_member o u ms) + bit (o == o' && is_admin m.role) ≡ count_admins o' ms
unfolding get_membership count_admins delete_member
count-delete_member o o' u m [] e = cc
count-delete_member o o' u m (x ∷ ms) e = ground (arith, count-delete_member o o' u m ms)

-- Every organization has an ADMIN.
abbrev pub IsManaged : Db → Type 0
IsManaged db = (o : ℕ) → organization_exists db o ≡ true → 1 ≤ count_admins o db.memberships

add-IsManaged :
    (db : Db) (ctx : TenantContext) (u : ℕ) (r : MembershipRole)
    → IsManaged db
    → IsManaged (handle db (add ctx u r))
unfolding handle add_member organization_exists count_admins
add-IsManaged db ctx u r h o e = ground (arith, h o)

change-IsManaged :
    (db : Db) (ctx : TenantContext) (u : ℕ) (r : MembershipRole)
    → IsManaged db
    → IsManaged (handle db (change ctx u r))
unfolding handle change_role ensure_another_admin organization_exists
change-IsManaged db ctx u r h o e =
    elim (Option-cases (get_membership db.memberships ctx.organization_id u)) [
      | inl gone ↦ ground (arith, h o)
      | inr (m, found) ↦
          ground (arith, h o, count-set_role ctx.organization_id o u r m db.memberships found)
    ]

remove-IsManaged :
    (db : Db) (ctx : TenantContext) (u : ℕ) → IsManaged db → IsManaged (handle db (remove ctx u))
unfolding handle remove_member ensure_another_admin organization_exists
remove-IsManaged db ctx u h o e =
    elim (Option-cases (get_membership db.memberships ctx.organization_id u)) [
      | inl gone ↦ ground (arith, h o)
      | inr (m, found) ↦
          ground (arith, h o, count-delete_member ctx.organization_id o u m db.memberships found)
    ]

create-IsManaged :
    (db : Db) (id : ℕ) (name slug : String) (u : ℕ)
    → IsManaged db
    → IsManaged (handle db (create id name slug u))
unfolding handle create_organization organization_exists count_admins
create-IsManaged db id name slug u h o e = ground (arith, h o)

pub handle-IsManaged : (db : Db) (r : Request) → IsManaged db → IsManaged (handle db r)
handle-IsManaged db (add ctx u r) h = add-IsManaged db ctx u r h
handle-IsManaged db (change ctx u r) h = change-IsManaged db ctx u r h
handle-IsManaged db (remove ctx u) h = remove-IsManaged db ctx u h
handle-IsManaged db (create id name slug u) h = create-IsManaged db id name slug u h

-- If every organization has an ADMIN, then it still has one after any sequence of requests to add,
-- re-role and remove members and to create organizations, by any actors, refused ones included.
pub handle_all-IsManaged :
    (db : Db) (rs : List Request) → IsManaged db → IsManaged (handle_all db rs)
unfolding handle_all
handle_all-IsManaged db [] h = h
handle_all-IsManaged db (r ∷ rs) h = handle_all-IsManaged (handle db r) rs (handle-IsManaged db r h)
