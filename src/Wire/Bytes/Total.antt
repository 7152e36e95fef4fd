-- ===== src/Wire/Bytes/Total.antt =====
-- Reads of a byte slice that stay inside it do not panic.
use mac_homa.Common.{
  ℕ, zero, suc, ◌+◌, ◌≤◌, ◌<◌, ◌≡◌, ◌≢◌, refl, List, [], ◌∷◌, length, arith, Bool, true, false,
  if◌then◌else◌, get_or, ◌∙◌,
}
use mac_homa.Wire.{Result, ok, err, panic, ◌>>=◌, Error}
use mac_homa.Wire.Bytes.{
  byte_at, read_u16, read_u32, read_u64, read_three, slice_from, be_u16, be_u32, put_byte, put_u16,
  copy, copy_at,
}

-- A result that is not a panic.
pub data NoPanic {ℓ} {A : Type ℓ} : Result A → Type ℓ where
  is_ok : (a : A) → NoPanic (ok a)
  is_err : (e : Error) → NoPanic (err e)

pub NoPanic-ne-panic {ℓ} : {A : Type ℓ} (m : Result A) → NoPanic m → m ≢ panic
NoPanic-ne-panic (ok a) h e = cc
NoPanic-ne-panic (err x) h e = cc
NoPanic-ne-panic panic h e = elim h [ ]

pub NoPanic-bind {ℓ κ} :
    {A : Type ℓ} {B : Type κ} (m : Result A) (f : A → Result B)
    → NoPanic m
    → ((a : A) → NoPanic (f a))
    → NoPanic (m >>= f)
NoPanic-bind (ok a) f h k = k a
NoPanic-bind (err e) f h k = is_err e
NoPanic-bind panic f h k = elim h [ ]

pub byte_at-NoPanic : (b : List ℕ) (i : ℕ) → i < length b → NoPanic (byte_at b i)
unfolding byte_at
byte_at-NoPanic [] i h = absurd (omega arith)
byte_at-NoPanic (x ∷ xs) zero h = is_ok _
byte_at-NoPanic (x ∷ xs) (suc i) h = byte_at-NoPanic xs i (omega arith)

pub slice_from-NoPanic : (b : List ℕ) (i : ℕ) → i ≤ length b → NoPanic (slice_from b i)
unfolding slice_from
slice_from-NoPanic b zero h = is_ok _
slice_from-NoPanic [] (suc i) h = absurd (omega arith)
slice_from-NoPanic (x ∷ xs) (suc i) h = slice_from-NoPanic xs i (omega arith)

pub read_u16-NoPanic : (b : List ℕ) (i : ℕ) → i + 2 ≤ length b → NoPanic (read_u16 b i)
unfolding read_u16
read_u16-NoPanic b i h =
    NoPanic-bind (byte_at b i) _ (byte_at-NoPanic b i (omega arith))
      λ x. NoPanic-bind (byte_at b (i + 1)) _ (byte_at-NoPanic b (i + 1) (omega arith)) λ y. is_ok _

pub read_u32-NoPanic : (b : List ℕ) (i : ℕ) → i + 4 ≤ length b → NoPanic (read_u32 b i)
unfolding read_u32
read_u32-NoPanic b i h = NoPanic-bind (byte_at b i) _ (byte_at-NoPanic b i (omega arith)) λ x0.
    NoPanic-bind (byte_at b (i + 1)) _ (byte_at-NoPanic b (i + 1) (omega arith)) λ x1.
      NoPanic-bind (byte_at b (i + 2)) _ (byte_at-NoPanic b (i + 2) (omega arith)) λ x2.
        NoPanic-bind (byte_at b (i + 3)) _ (byte_at-NoPanic b (i + 3) (omega arith)) λ x3. is_ok _

pub read_three-NoPanic : (b : List ℕ) (i : ℕ) → i + 3 ≤ length b → NoPanic (read_three b i)
unfolding read_three
read_three-NoPanic b i h = NoPanic-bind (byte_at b i) _ (byte_at-NoPanic b i (omega arith)) λ x0.
    NoPanic-bind (byte_at b (i + 1)) _ (byte_at-NoPanic b (i + 1) (omega arith)) λ x1.
      NoPanic-bind (byte_at b (i + 2)) _ (byte_at-NoPanic b (i + 2) (omega arith)) λ x2. is_ok _

pub read_u64-NoPanic : (b : List ℕ) (i : ℕ) → i + 8 ≤ length b → NoPanic (read_u64 b i)
unfolding read_u64
read_u64-NoPanic b i h = NoPanic-bind (read_u32 b i) _ (read_u32-NoPanic b i (omega arith)) λ x0.
    NoPanic-bind (read_u32 b (i + 4)) _ (read_u32-NoPanic b (i + 4) (omega arith)) λ x4. is_ok _

pub NoPanic-if {ℓ} :
    {A : Type ℓ} (c : Bool) (x y : Result A)
    → (c ≡ true → NoPanic x)
    → (c ≡ false → NoPanic y)
    → NoPanic (if c then x else y)
NoPanic-if true x y h k = h refl
NoPanic-if false x y h k = k refl

-- The rest of a chain is reached only with the value that the first part has given.
pub NoPanic-then {ℓ κ} :
    {A : Type ℓ} {B : Type κ} (m : Result A) (f : A → Result B)
    → NoPanic m
    → ((a : A) → m ≡ ok a → NoPanic (f a))
    → NoPanic (m >>= f)
NoPanic-then (ok a) f h k = k a refl
NoPanic-then (err e) f h k = is_err e
NoPanic-then panic f h k = elim h [ ]

pub byte_at-ok : (b : List ℕ) (i : ℕ) → i < length b → byte_at b i ≡ ok (get_or b i 0)
unfolding byte_at
byte_at-ok [] i h = absurd (omega arith)
byte_at-ok (x ∷ xs) zero h = refl
byte_at-ok (x ∷ xs) (suc i) h = byte_at-ok xs i (omega arith)

pub read_u16-ok :
    (b : List ℕ) (i : ℕ)
    → i + 1 < length b
    → read_u16 b i ≡ ok (be_u16 (get_or b i 0) (get_or b (i + 1) 0))
unfolding read_u16
read_u16-ok b i h = rw (byte_at-ok b i (omega arith), byte_at-ok b (i + 1) h)

pub read_u32-ok :
    (b : List ℕ) (i : ℕ)
    → i + 3 < length b
    → read_u32 b i
      ≡ ok (be_u32 (get_or b i 0) (get_or b (i + 1) 0) (get_or b (i + 2) 0) (get_or b (i + 3) 0))
unfolding read_u32
read_u32-ok b i h = rw (
  byte_at-ok b i (omega arith),
  byte_at-ok b (i + 1) (omega arith),
  byte_at-ok b (i + 2) (omega arith),
  byte_at-ok b (i + 3) h,
)

-- What a chain that ends well has gone through.
pub bind-ok {ℓ κ} :
    {A : Type ℓ} {B : Type κ} {y : B} (first : Result A) (next : A → Result B)
    → (first >>= next) ≡ ok y
    → (x : A) × (first ≡ ok x) × (next x ≡ ok y)
bind-ok panic next e = cc
bind-ok (err x) next e = cc
bind-ok (ok x) next e = (x, refl, e)

-- Writes that stay inside a slice of `n` bytes give a slice of `n` bytes.
pub record IsOf (n : ℕ) (m : Result (List ℕ)) : Type 0 where
  pub value : List ℕ
  pub is_value : m ≡ ok value
  pub size : length value ≡ n

pub IsOf-bind :
    (n : ℕ) (m : Result (List ℕ)) (f : List ℕ → Result (List ℕ))
    → IsOf n m
    → ((b : List ℕ) → length b ≡ n → IsOf n (f b))
    → IsOf n (m >>= f)
IsOf-bind n m f v k =
    let rest = k v.value v.size in
    record { value = rest.value; is_value = rw v.is_value rest.is_value; size = rest.size }

pub IsOf-NoPanic : (n : ℕ) (m : Result (List ℕ)) → IsOf n m → NoPanic m
IsOf-NoPanic n m v = rw v.is_value (is_ok v.value)

IsOf-cons : (n x : ℕ) (m : Result (List ℕ)) → IsOf n m → IsOf (suc n) (do rest ← m; ok (x ∷ rest))
IsOf-cons n x m v = record {
  value = x ∷ v.value;
  is_value = rw v.is_value refl;
  size = omega (arith, v.size);
}

length-copy : (b source : List ℕ) → length (copy b source) ≡ length b
unfolding copy
length-copy [] source = refl
length-copy (x ∷ b) [] = refl
length-copy (x ∷ b) (y ∷ source) = omega (arith, length-copy b source)

pub copy_at-IsOf :
    (n i : ℕ) (source b : List ℕ) → length b ≡ n → i ≤ n → IsOf n (copy_at i source b)
unfolding copy_at
copy_at-IsOf n zero source b e h = record {
  value = copy b source;
  is_value = refl;
  size = length-copy b source ∙ e;
}
copy_at-IsOf n (suc i) source [] e h = absurd (omega arith)
copy_at-IsOf zero (suc i) source (x ∷ b) e h = absurd (omega arith)
copy_at-IsOf (suc n) (suc i) source (x ∷ b) e h =
    IsOf-cons n x (copy_at i source b) (copy_at-IsOf n i source b (omega arith) (omega arith))

pub put_byte-IsOf : (n i v : ℕ) (b : List ℕ) → length b ≡ n → i < n → IsOf n (put_byte i v b)
unfolding put_byte
put_byte-IsOf n i v [] e h = absurd (omega arith)
put_byte-IsOf n zero v (x ∷ b) e h = record { value = v ∷ b; is_value = refl; size = e }
put_byte-IsOf zero (suc i) v (x ∷ b) e h = absurd (omega arith)
put_byte-IsOf (suc n) (suc i) v (x ∷ b) e h =
    IsOf-cons n x (put_byte i v b) (put_byte-IsOf n i v b (omega arith) (omega arith))

pub put_u16-IsOf : (n i v : ℕ) (b : List ℕ) → length b ≡ n → i + 1 < n → IsOf n (put_u16 i v b)
unfolding put_u16
put_u16-IsOf n i v b e h =
    IsOf-bind n _ _ (put_byte-IsOf n i _ b e (omega arith)) λ c d. put_byte-IsOf n (i + 1) _ c d h

pub ok_inj {ℓ} : {A : Type ℓ} {x y : A} → ok x ≡ ok y → x ≡ y
ok_inj e = cc e
