-- ===== src/Serial/Stream.antt =====
-- Reading and writing a stream (ivm_stream_read, ivm_stream_write) as a list of bytes: a reader is
-- handed the rest of the stream, and none is a read that finds too few bytes. Numbers are stored as
-- they stand in memory, the lowest byte first.
use ivm.Base.{
  ℕ, zero, suc, ◌+◌, ◌*◌, ◌/◌, ◌%◌, ◌<◌, ◌≡◌, refl, Option, none, some, List, [], ◌∷◌, ◌++◌, length,
  append_assoc, arith,
}

abbrev pub Reader : Type 0 → Type 0
Reader A = List ℕ → Option (A × List ℕ)

infixl 5 ◌>>=◌ ◌>>◌
abbrev pub ◌>>=◌ : {A B : Type 0} → Reader A → (A → Reader B) → Reader B
◌>>=◌ r f s = elim (r s) [ none ↦ none | some (a, s') ↦ f a s' ]

abbrev pub ◌>>◌ : {A B : Type 0} → Reader A → Reader B → Reader B
r >> q = r >>= λ _. q

abbrev pub pure : {A : Type 0} → A → Reader A
pure a s = some (a, s)

abbrev pub fail : {A : Type 0} → Reader A
fail s = none

-- A number of `w` bytes.
unfoldable pub write_int : ℕ → ℕ → List ℕ
write_int zero x = []
write_int (suc w) x = (x % 256) ∷ write_int w (x / 256)

unfoldable pub read_int : ℕ → Reader ℕ
read_int zero s = some (0, s)
read_int (suc w) [] = none
read_int (suc w) (b ∷ s) = elim (read_int w s) [
  | none ↦ none
  | some (x, s') ↦ some (b + 256 * x, s')
]

-- How many numbers have `w` bytes.
abbrev pub capacity : ℕ → ℕ
capacity zero = 1
capacity (suc w) = 256 * capacity w

unfoldable pub read_bytes : ℕ → Reader (List ℕ)
read_bytes zero s = some ([], s)
read_bytes (suc n) [] = none
read_bytes (suc n) (b ∷ s) = elim (read_bytes n s) [
  | none ↦ none
  | some (xs, s') ↦ some (b ∷ xs, s')
]

-- The loops over the elements of an array.
unfoldable pub write_many : {A : Type 0} → (A → List ℕ) → List A → List ℕ
write_many w [] = []
write_many w (x ∷ xs) = w x ++ write_many w xs

unfoldable pub read_many : {A : Type 0} → Reader A → ℕ → Reader (List A)
read_many r zero s = some ([], s)
read_many r (suc n) s = elim (r s) [
  | none ↦ none
  | some (x, s') ↦ elim (read_many r n s') [ none ↦ none | some (xs, s'') ↦ some (x ∷ xs, s'') ]
]

-- A reader gets back what the writer wrote, and leaves what stands behind it.
abbrev pub Recovers : {A : Type 0} → Reader A → (A → List ℕ) → A → Type 0
Recovers {A} r w x = (rest : List ℕ) → r (w x ++ rest) ≡ some (x, rest)

abbrev pub All : {A : Type 0} → (A → Type 0) → List A → Type 0
All P [] = Unit {0}
All P (x ∷ xs) = P x × All P xs

pub All-map :
    {A : Type 0} {P Q : A → Type 0} → ((x : A) → P x → Q x) → (xs : List A) → All P xs → All Q xs
All-map f [] h = tt
All-map f (x ∷ xs) (h, hs) = (f x h, All-map f xs hs)

pub read_int-write_int : (w x : ℕ) → x < capacity w → Recovers (read_int w) (write_int w) x
unfolding read_int write_int
read_int-write_int zero x h rest = ground arith
read_int-write_int (suc w) x h rest =
    let again = read_int-write_int w (x / 256) (omega arith) rest in
    let digits : x % 256 + 256 * (x / 256) ≡ x = omega arith in rw (again, digits) refl

pub read_bytes-append : (xs rest : List ℕ) → read_bytes (length xs) (xs ++ rest) ≡ some (xs, rest)
unfolding read_bytes
read_bytes-append [] rest = refl
read_bytes-append (x ∷ xs) rest = rw (read_bytes-append xs rest) refl

pub read_many-write_many :
    {A : Type 0} (r : Reader A) (w : A → List ℕ) (xs : List A)
    → All (Recovers r w) xs
    → (rest : List ℕ) → read_many r (length xs) (write_many w xs ++ rest) ≡ some (xs, rest)
unfolding read_many write_many
read_many-write_many r w [] h rest = refl
read_many-write_many r w (x ∷ xs) (h, hs) rest =
    rw (append_assoc, h (write_many w xs ++ rest), read_many-write_many r w xs hs rest) refl
