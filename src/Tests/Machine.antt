-- ===== src/Tests/Machine.antt =====
-- A machine: a little-endian host, and a file that holds every offset.
use qaoed.Base.{
  ℕ, zero, suc, ◌+◌, ◌≤◌, ◌<◌, ◌≡◌, refl, sym, ap, List, [], ◌∷◌, some, arith, length, replicate,
  write, write_self, write_ne,
}
use qaoed.Wire.{little, big, Host, swab16}
use qaoed.Device.{Machine}

-- The bytes of a file and the position in it.
pub record File : Type 0 where
  pub bytes : ℕ → ℕ
  pub pos : ℕ

abbrev pub slice : ℕ → ℕ → (ℕ → ℕ) → List ℕ
slice zero pos c = []
slice (suc n) pos c = c pos ∷ slice n (suc pos) c

abbrev pub put : ℕ → List ℕ → (ℕ → ℕ) → ℕ → ℕ
put pos [] c = c
put pos (b ∷ bs) c = write (put (suc pos) bs c) pos b

length-slice : (n pos : ℕ) (c : ℕ → ℕ) → length (slice n pos c) ≡ n
length-slice zero pos c = refl
length-slice (suc n) pos c = ap suc (length-slice n (suc pos) c)

slice-write : (n pos a b : ℕ) (c : ℕ → ℕ) → a < pos → slice n pos (write c a b) ≡ slice n pos c
slice-write zero pos a b c h = refl
slice-write (suc n) pos a b c h =
    rw (write_ne c b a pos (omega arith), slice-write n (suc pos) a b c (omega arith))

slice-put : (bs : List ℕ) (pos : ℕ) (c : ℕ → ℕ) → slice (length bs) pos (put pos bs c) ≡ bs
slice-put [] pos c = refl
slice-put (b ∷ bs) pos c = rw (
  write_self (put (suc pos) bs c) b pos,
  slice-write (length bs) (suc pos) pos b (put (suc pos) bs c) (omega arith),
  slice-put bs (suc pos) c,
)

pub length-replicate : (n : ℕ) → length {A = ℕ} (replicate n 0) ≡ n
length-replicate zero = refl
length-replicate (suc n) = ap suc (length-replicate n)

pub distinct : little ≡ big → ⊥
distinct o = cc o

-- What was asked for is what is read.
pub slice-read :
    (n : ℕ) (d : File) (bs : List ℕ) → some (slice n d.pos d.bytes) ≡ some bs → length bs ≤ n
slice-read n d bs e =
    let same : slice n d.pos d.bytes ≡ bs = cc e in
    rw (← same) (omega (arith, length-slice n d.pos d.bytes))

abbrev pub at_pos : ℕ → File → File
at_pos p d = record d { pos = p }

abbrev pub written : List ℕ → File → File
written bs d = record { bytes = put d.pos bs d.bytes; pos = d.pos + length bs }

-- What was written at an offset is what is read there.
pub slice-written :
    (p : ℕ) (bs : List ℕ) (d d' d'' : File)
    → some (at_pos p d) ≡ some d'
    → some (at_pos p (written bs d')) ≡ some d''
    → some (slice (length bs) d''.pos d''.bytes) ≡ some bs
slice-written p bs d d' d'' e e' =
    let first : at_pos p d ≡ d' = cc e in
    let second : at_pos p (written bs d') ≡ d'' = cc e' in
    rw (← second, ← first) (ap some (slice-put bs p d.bytes))

abbrev pub little_host : Host
little_host = record {
  order = little;
  htons = swab16;
  ntohs = swab16;
  htons_little = λ o x h. refl;
  htons_big = λ o x h. absurd (distinct o);
  ntohs_little = λ o x h. refl;
  ntohs_big = λ o x h. absurd (distinct o);
}

abbrev pub ram : Machine
ram = record {
  host = little_host;
  Disk = File;
  lseek = λ p d. some (at_pos p d);
  read = λ n d. (some (slice n d.pos d.bytes), record d { pos = d.pos + n });
  write = λ bs d. (some (length bs), written bs d);
  stale = λ n. replicate n 0;
  read_le = slice-read;
  read-write = λ p bs d d' d'' e _ e'. slice-written p bs d d' d'' e e';
  stale_length = length-replicate;
}

-- The same machine with the other byte order.
abbrev pub big_ram : Machine
big_ram = record ram {
  host = record {
    order = big;
    htons = λ x. x;
    ntohs = λ x. x;
    htons_little = λ o x h. absurd (distinct (sym o));
    htons_big = λ o x h. refl;
    ntohs_little = λ o x h. absurd (distinct (sym o));
    ntohs_big = λ o x h. refl;
  };
}
