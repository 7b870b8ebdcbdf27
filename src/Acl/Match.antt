-- ===== src/Acl/Match.antt =====
-- What `aclmatch` decides: the first row for the address, and else the default policy.
use qaoed.Base.{
  ℕ, ◌≡◌, refl, ◌≢◌, ◌↔◌, inl, inr, false, List, [], ◌∷◌, same_bytes, Bool-cases, eq_of_same_bytes,
  same_bytes_refl,
}
use qaoed.Acl.{AclEntry, AclHdr, match_rows, aclmatch}

-- The rows decide `r` for the address, by a policy where no row names the address.
pub data Decides (policy : ℕ) (addr : List ℕ) (r : ℕ) : List AclEntry → Type 0 where
  by_default : r ≡ policy → Decides policy addr r []
  by_row :
      {row : AclEntry} {rows : List AclEntry}
      → addr ≡ row.h_dest
      → r ≡ row.rule
      → Decides policy addr r (row ∷ rows)
  later :
      {row : AclEntry} {rows : List AclEntry}
      → addr ≢ row.h_dest
      → Decides policy addr r rows
      → Decides policy addr r (row ∷ rows)

ne_of_differ : (xs ys : List ℕ) → same_bytes xs ys ≡ false → xs ≢ ys
ne_of_differ xs ys h e = cc (same_bytes_refl xs)

match_rows-Decides :
    (policy : ℕ) (addr : List ℕ) (rows : List AclEntry)
    → Decides policy addr (match_rows policy addr rows) rows
unfolding match_rows
match_rows-Decides policy addr [] = by_default refl
match_rows-Decides policy addr (row ∷ rows) = elim (Bool-cases (same_bytes addr row.h_dest)) [
  | inl same ↦ rw same (by_row (eq_of_same_bytes addr row.h_dest same) refl)
  | inr other ↦
      rw other (later (ne_of_differ addr row.h_dest other) (match_rows-Decides policy addr rows))
]

Decides-match_rows :
    {policy r : ℕ} {addr : List ℕ} {rows : List AclEntry}
    → Decides policy addr r rows
    → match_rows policy addr rows ≡ r
unfolding match_rows
Decides-match_rows (by_default e) = cc
Decides-match_rows {addr} (by_row {row} same e) = rw (same, same_bytes_refl row.h_dest) (cc)
Decides-match_rows {addr} (later {row} {rows} other d) =
    elim (Bool-cases (same_bytes addr row.h_dest)) [
      | inl same ↦ absurd (other (eq_of_same_bytes addr row.h_dest same))
      | inr e ↦ rw e (Decides-match_rows d)
    ]

-- `aclmatch` answers r exactly when the rows decide r: the rule of the first row whose address is
-- the given one, and the default policy when no row has that address.
pub aclmatch_lem :
    (acl : AclHdr) (addr : List ℕ) (r : ℕ)
    → (aclmatch acl addr ≡ r) ↔ Decides acl.defaultpolicy addr r acl.acl
unfolding aclmatch
aclmatch_lem acl addr r =
    (λ e. rw (← e) (match_rows-Decides acl.defaultpolicy addr acl.acl), λ d. Decides-match_rows d)
