-- ===== src/Adapter/HostImage/Tracks.antt =====
-- adapter.mjs: a HostImage agrees with the durable range below its low water mark, whatever is
-- appended and truncated.
use fram.Prelude.{
  ℕ, zero, suc, ◌+◌, ◌*◌, ◌<◌, ◌≤◌, min, max, ◌≡◌, refl, sym, ap, ◌∙◌, inl, inr, true, false, none,
  some, List, [], ◌∷◌, ◌++◌, ltb, leb, length, take, drop, replicate, length-take, length-drop,
  length-append, length-replicate, take-take, Bool-cases, leb→le, arith,
}
use fram.Adapter.Chunks.{set_bytes}
use fram.Adapter.HostImage.{HostImage, new_image, double_until, reserve, lower, append, truncate}

-- The image against the bytes that a range holds: equal where it is clean, and equal below the low
-- water mark where it is dirty.
pub data Agrees (image : HostImage) (old : List ℕ) (old_size : ℕ) : Type 0 where
  clean :
      image.low_water ≡ none
      → image.dirty ≡ false
      → old_size ≡ image.size
      → take image.size old ≡ take image.size image.bytes
      → Agrees image old old_size
  behind :
      (low : ℕ)
      → image.low_water ≡ some low
      → image.dirty ≡ true
      → low ≤ old_size
      → low ≤ image.size
      → take low old ≡ take low image.bytes
      → Agrees image old old_size

-- The buffer has the capacity, and the image fits in it.
abbrev pub Fits : HostImage → Type 0
Fits image = (length image.bytes ≡ image.capacity) × (image.size ≤ image.capacity)

-- The doubling ends at or above what is wanted.
pub double_until-le :
    (fuel wanted capacity : ℕ)
    → 0 < capacity
    → wanted ≤ fuel + capacity
    → wanted ≤ double_until fuel wanted capacity
unfolding double_until
double_until-le zero wanted capacity hc h = omega arith
double_until-le (suc fuel) wanted capacity hc h =
    let rest = double_until-le fuel wanted (capacity * 2) (omega arith) (omega arith) in
    ground arith

take-append : (m : ℕ) (xs ys : List ℕ) → m ≤ length xs → take m (xs ++ ys) ≡ take m xs
unfolding take
take-append zero xs ys h = refl
take-append (suc m) [] ys h = absurd (omega arith)
take-append (suc m) (x ∷ xs) ys h = ap (λ (r : List ℕ). x ∷ r) (take-append m xs ys (omega arith))

take_none : (xs : List ℕ) → take 0 xs ≡ []
unfolding take
take_none xs = refl

-- Setting bytes at `at` leaves those before it.
take-set_bytes :
    (image : List ℕ) (at : ℕ) (bytes : List ℕ) (m : ℕ)
    → m ≤ at
    → at ≤ length image
    → take m (set_bytes image at bytes) ≡ take m image
unfolding set_bytes
take-set_bytes image at bytes m h k =
    take-append m (take at image) _ (omega (arith, length-take at image)) ∙ take-take m at image h

length-set_bytes :
    (image : List ℕ) (at : ℕ) (bytes : List ℕ)
    → at + length bytes ≤ length image
    → length (set_bytes image at bytes) ≡ length image
unfolding set_bytes
length-set_bytes image at bytes h = omega (
  arith,
  length-append (take at image) (bytes ++ drop (at + length bytes) image),
  length-append bytes (drop (at + length bytes) image),
  length-take at image,
  length-drop (at + length bytes) image,
)

take-set_front :
    (image bytes : List ℕ) (m : ℕ)
    → m ≤ length bytes
    → take m (set_bytes image 0 bytes) ≡ take m bytes
unfolding set_bytes
take-set_front image bytes m h = rw (take_none image) (take-append m bytes _ h)

-- What `reserve` promises of the image that it leaves.
record Reserved (extra : ℕ) (image after : HostImage) : Type 0 where
  size_kept : after.size ≡ image.size
  low_kept : after.low_water ≡ image.low_water
  dirty_kept : after.dirty ≡ image.dirty
  bytes_kept : take image.size after.bytes ≡ take image.size image.bytes
  buffered : length after.bytes ≡ after.capacity
  roomy : image.size + extra ≤ after.capacity

grow_bytes :
    (capacity : ℕ) (image : HostImage)
    → Fits image
    → image.size ≤ capacity
    → let grown = set_bytes (replicate capacity 0) 0 (take image.size image.bytes) in
      (take image.size grown ≡ take image.size image.bytes) × (length grown ≡ capacity)
grow_bytes capacity image (hb, hf) h =
    let n : length (take image.size image.bytes) ≡ image.size =
      omega (arith, length-take image.size image.bytes) in
    (
      take-set_front (replicate capacity 0) (take image.size image.bytes) image.size
            (omega (arith, n))
          ∙ take-take image.size image.size image.bytes (omega arith),
      length-set_bytes (replicate capacity 0) 0 (take image.size image.bytes)
            (omega (arith, n, length-replicate {A = ℕ} capacity 0))
          ∙ length-replicate capacity 0,
    )

reserve-Reserved :
    (extra : ℕ) (image : HostImage) → Fits image → Reserved extra image (reserve extra image)
unfolding reserve
reserve-Reserved extra image fits = elim (Bool-cases (leb (image.size + extra) image.capacity)) [
  | inl e ↦ rw e (record {
    size_kept = refl;
    low_kept = refl;
    dirty_kept = refl;
    bytes_kept = refl;
    buffered = fits.0;
    roomy = leb→le (image.size + extra) image.capacity e;
  })
  | inr e ↦
      let wanted = image.size + extra in
      let capacity = double_until wanted wanted (max (image.capacity * 2) 65536) in
      let enough =
        double_until-le wanted wanted (max (image.capacity * 2) 65536) (omega arith)
          (omega arith) in
      let (kept, long) = grow_bytes capacity image fits (omega arith) in
      rw e (record {
        size_kept = refl;
        low_kept = refl;
        dirty_kept = refl;
        bytes_kept = kept;
        buffered = long;
        roomy = enough;
      })
]

module _ (piece : List ℕ) (image : HostImage)
    (r : Reserved (length piece) image (reserve (length piece) image)) where
  appended_bytes :
      (old : List ℕ) (m : ℕ)
      → m ≤ image.size
      → take m old ≡ take m image.bytes
      → take m old ≡ take m (append piece image).bytes
  unfolding append
  appended_bytes old m h agree =
      let grown = reserve (length piece) image in
      agree
      ∙ sym (take-take m image.size image.bytes h)
      ∙ sym (ap (take m) r.bytes_kept)
      ∙ take-take m image.size grown.bytes h
      ∙ sym (
          take-set_bytes grown.bytes grown.size piece m (omega (arith, r.size_kept))
            (omega (arith, r.size_kept, r.buffered, r.roomy)))

  append_case :
      (old : List ℕ) (old_size : ℕ)
      → Agrees image old old_size
      → Agrees (append piece image) old old_size
  unfolding append lower
  append_case old old_size (clean low dirty size bytes) =
      behind image.size (rw (r.low_kept ∙ low, r.size_kept) refl) refl (omega (arith, size))
        (omega (arith, r.size_kept))
        (unfold append in appended_bytes old image.size (omega arith) bytes)
  append_case old old_size (behind low marked dirty below within bytes) =
      let least : min low image.size ≡ low = omega arith in
      behind low (rw (r.low_kept ∙ marked, r.size_kept, least) refl) refl below
        (omega (arith, r.size_kept)) (unfold append in appended_bytes old low within bytes)

-- An append to an image that fits its buffer and agrees with the durable bytes below its low water
-- mark leaves it so.
pub append-Agrees :
    (piece : List ℕ) (image : HostImage) (old : List ℕ) (old_size : ℕ)
    → Fits image
    → Agrees image old old_size
    → Fits (append piece image) × Agrees (append piece image) old old_size
unfolding append
append-Agrees piece image old old_size fits agrees =
    let grown = reserve (length piece) image in
    let r = reserve-Reserved (length piece) image fits in
    let fits' : Fits (append piece image) = (
      length-set_bytes grown.bytes grown.size piece
            (omega (arith, r.size_kept, r.roomy, r.buffered))
          ∙ r.buffered,
      omega (arith, r.size_kept, r.roomy),
    ) in
    (fits', append_case piece image r old old_size agrees)

-- A truncation to at most the size of an image that fits its buffer and agrees with the durable
-- bytes below its low water mark leaves it so.
pub truncate-Agrees :
    (size : ℕ) (image : HostImage) (old : List ℕ) (old_size : ℕ)
    → size ≤ image.size
    → Fits image
    → Agrees image old old_size
    → let after = (truncate size image).1 in Fits after × Agrees after old old_size
unfolding truncate lower
truncate-Agrees size image old old_size h fits (clean low dirty same_size bytes) =
    let within : ltb image.size size ≡ false = ground arith in
    rw (within, low)
      (
        (fits.0, omega arith),
        behind size refl refl (omega arith) (omega arith) (
            sym (take-take size image.size old h)
            ∙ ap (take size) bytes
            ∙ take-take size image.size image.bytes h),
      )
truncate-Agrees size image old old_size h fits (behind low marked dirty below within bytes) =
    let inside : ltb image.size size ≡ false = ground arith in
    rw (inside, marked)
      (
        (fits.0, omega arith),
        behind (min low size) refl refl (omega arith) (omega arith) (
            sym (take-take (min low size) low old (omega arith))
            ∙ ap (take (min low size)) bytes
            ∙ take-take (min low size) low image.bytes (omega arith)),
      )

-- The image of freshly loaded bytes.
pub new_image-Agrees :
    (old : List ℕ) (old_size : ℕ)
    → old_size ≤ length old
    → Fits (new_image (take old_size old)) × Agrees (new_image (take old_size old)) old old_size
unfolding new_image
new_image-Agrees old old_size h =
    let n : length (take old_size old) ≡ old_size = omega (arith, length-take old_size old) in
    (
      (refl, omega arith),
      clean refl refl (sym n) (rw n (sym (take-take old_size old_size old (omega arith)))),
    )
