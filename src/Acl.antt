-- ===== src/Acl.antt =====
-- acl.c and include/acl.h: access lists. `conf->acllist` is a list, and a pointer to an `aclhdr` is
-- its position there (nothing ever leaves that list); the texts that go to a log are left out.
pub mod Match
pub mod Reference
use qaoed.Base.{
  ℕ, zero, suc, ◌+◌, ℤ, pos, negsuc, ◌+ℤ◌, String, List, [], ◌∷◌, Option, none, some, str_eq,
  same_bytes, if◌then◌else◌, ◌==◌,
}

-- `struct aclentry`, without its `next`.
pub record AclEntry : Type 0 where
  pub rule : ℕ
  pub h_dest : List ℕ
  pub mask : ℕ

-- `struct aclhdr`, without its lock and its `next`; `log` is the position of a logging target.
pub record AclHdr : Type 0 where
  pub name : String
  pub aclnum : ℕ
  pub refcnt : ℤ
  pub defaultpolicy : ℕ
  pub acl : List AclEntry
  pub log : Option ℕ

abbrev pub acl_error : ℕ
acl_error = 255

abbrev pub acl_accept : ℕ
acl_accept = 1

abbrev pub acl_reject : ℕ
acl_reject = 2

-- The loop of `aclmatch` over the rows that are left.
unfoldable pub match_rows : ℕ → List ℕ → List AclEntry → ℕ
match_rows policy h_addr [] = policy
match_rows policy h_addr (row ∷ rows) =
    if same_bytes h_addr row.h_dest then row.rule else match_rows policy h_addr rows

unfoldable pub aclmatch : AclHdr → List ℕ → ℕ
aclmatch acl h_addr = match_rows acl.defaultpolicy h_addr acl.acl

-- The loop of `referenceacl`; `n` is the position of the head of the list.
unfoldable pub find_name : String → List AclHdr → ℕ → Option ℕ
find_name name [] n = none
find_name name (a ∷ acls) n = if str_eq name a.name then some n else find_name name acls (n + 1)

unfoldable pub referenceacl : String → List AclHdr → Option ℕ
referenceacl name acllist = find_name name acllist 0

-- The loop of `referenceaclint`.
unfoldable pub find_aclnum : ℕ → List AclHdr → ℕ → Option ℕ
find_aclnum aclnum [] n = none
find_aclnum aclnum (a ∷ acls) n =
    if aclnum == a.aclnum then some n else find_aclnum aclnum acls (n + 1)

unfoldable pub referenceaclint : ℕ → List AclHdr → Option ℕ
referenceaclint aclnum acllist = find_aclnum aclnum acllist 0

-- `acl->refcnt += k` for the list at a position.
unfoldable pub add_refcnt : ℤ → ℕ → List AclHdr → List AclHdr
add_refcnt k n [] = []
add_refcnt k zero (a ∷ acls) = record a { refcnt = a.refcnt +ℤ k } ∷ acls
add_refcnt k (suc n) (a ∷ acls) = a ∷ add_refcnt k n acls

unfoldable pub aclrefup : Option ℕ → List AclHdr → List AclHdr
aclrefup none acls = acls
aclrefup (some n) acls = add_refcnt (pos 1) n acls

unfoldable pub aclrefdown : Option ℕ → List AclHdr → List AclHdr
aclrefdown none acls = acls
aclrefdown (some n) acls = add_refcnt (negsuc 0) n acls
