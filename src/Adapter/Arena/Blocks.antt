-- ===== src/Adapter/Arena/Blocks.antt =====
-- adapter.mjs: GuestArena, the blocks that it has cut from the memory.
use fram.Prelude.{
  ℕ, ◌+◌, ◌-◌, ◌%◌, ◌<◌, ◌≤◌, ◌≡◌, ◌⊎◌, inl, inr, true, false, Bool, List, [], ◌∷◌, ◌==◌, ◌&&◌,
  if◌then◌else◌, All, ltb, ltb→lt, Bool-cases, arith,
}
use fram.Adapter.Memory.{Memory, get_uint32, set_uint32, get-set_uint32_other}
use fram.Adapter.Arena.{block_magic}

-- A pointer that `allocate` returned, with the class of its block.
abbrev pub Block : Type 0
Block = ℕ × ℕ

abbrev pub same_block : ℕ → ℕ → ℕ → ℕ → Bool
same_block p class q other = p == q && class == other

pub same_block-eq :
    (p class q other : ℕ) → same_block p class q other ≡ true → (p ≡ q) × (class ≡ other)
same_block-eq p class q other h = ground arith

-- How many times a block stands in a list.
unfoldable pub occurrences : ℕ → ℕ → List Block → ℕ
occurrences p class [] = 0
occurrences p class ((q, other) ∷ rest) =
    (if same_block p class q other then 1 else 0) + occurrences p class rest

unfoldable pub pointer_occurrences : ℕ → List ℕ → ℕ
pointer_occurrences p [] = 0
pointer_occurrences p (q ∷ rest) = (if p == q then 1 else 0) + pointer_occurrences p rest

unfoldable pub class_total : List Block → ℕ
class_total [] = 0
class_total ((p, class) ∷ rest) = class + class_total rest

-- A list without the first standing of a block.
unfoldable pub remove : ℕ → ℕ → List Block → List Block
remove p class [] = []
remove p class ((q, other) ∷ rest) =
    let left = remove p class rest in if same_block p class q other then rest else (q, other) ∷ left

-- The header that stands before a pointer.
pub record IsHeaded (base : ℕ) (memory : Memory) (p class : ℕ) : Type 0 where
  pub above_base : base + 16 ≤ p
  pub aligned : p % 16 ≡ 0
  pub positive : 32 ≤ class
  pub class_word : get_uint32 (p - 16) memory ≡ class
  pub magic_word : get_uint32 (p - 12) memory ≡ block_magic

-- The blocks that were cut below `top`, the newest first, each with its header and below the next.
abbrev pub Carved : ℕ → Memory → ℕ → List Block → Type 0
Carved base memory top [] = Unit {0}
Carved base memory top ((p, class) ∷ rest) =
    IsHeaded base memory p class × (p + class ≤ top) × Carved base memory (p - 16) rest

-- Two blocks that share no byte, their headers included.
abbrev pub Apart : ℕ → ℕ → ℕ → ℕ → Type 0
Apart p class q other = (p + class ≤ q - 16) ⊎ (q + other ≤ p - 16)

pub Carved-top :
    (base : ℕ) (memory : Memory) (top higher : ℕ) (blocks : List Block)
    → top ≤ higher
    → Carved base memory top blocks
    → Carved base memory higher blocks
Carved-top base memory top higher [] h carved = tt
Carved-top base memory top higher ((p, class) ∷ rest) h (headed, below, carved) =
    (headed, omega arith, carved)

-- Words that are written from the top on leave the blocks below it.
pub Carved-set_uint32 :
    (base : ℕ) (memory : Memory) (top at value : ℕ) (blocks : List Block)
    → top ≤ at
    → Carved base memory top blocks
    → Carved base (set_uint32 at value memory) top blocks
Carved-set_uint32 base memory top at value [] h carved = tt
Carved-set_uint32 base memory top at value ((p, class) ∷ rest) h (headed, below, carved) = (
  record {
    above_base = headed.above_base;
    aligned = headed.aligned;
    positive = headed.positive;
    class_word =
        let above = headed.above_base in
        let positive = headed.positive in
        rw (get-set_uint32_other at value (p - 16) memory (inl (omega arith))) headed.class_word;
    magic_word =
        let above = headed.above_base in
        let positive = headed.positive in
        rw (get-set_uint32_other at value (p - 12) memory (inl (omega arith))) headed.magic_word;
  },
  below,
  let above = headed.above_base in
      Carved-set_uint32 base memory (p - 16) at value rest (omega arith) carved,
)

-- What a memory must keep for the arena: the two words of every header.
abbrev pub Spares : Memory → Memory → List Block → Type 0
Spares memory after [] = Unit {0}
Spares memory after ((p, class) ∷ rest) =
    (get_uint32 (p - 16) after ≡ get_uint32 (p - 16) memory)
    × (get_uint32 (p - 12) after ≡ get_uint32 (p - 12) memory)
    × Spares memory after rest

pub Carved-Spares :
    (base : ℕ) (memory after : Memory) (top : ℕ) (blocks : List Block)
    → Spares memory after blocks
    → Carved base memory top blocks
    → Carved base after top blocks
Carved-Spares base memory after top [] spares carved = tt
Carved-Spares base memory after top ((p, class) ∷ rest) (same_class, same_magic, spares)
      (headed, below, carved) =
    (
      record {
        above_base = headed.above_base;
        aligned = headed.aligned;
        positive = headed.positive;
        class_word = rw same_class headed.class_word;
        magic_word = rw same_magic headed.magic_word;
      },
      below,
      Carved-Spares base memory after (p - 16) rest spares carved,
    )

-- A block that stands in the list is headed and ends below the top.
pub Carved-occurrences :
    (base : ℕ) (memory : Memory) (top p class : ℕ) (blocks : List Block)
    → Carved base memory top blocks
    → 0 < occurrences p class blocks
    → IsHeaded base memory p class × (p + class ≤ top)
unfolding occurrences
Carved-occurrences base memory top p class [] carved h = absurd (omega arith)
Carved-occurrences base memory top p class ((q, other) ∷ rest) (headed, below, carved) h =
    elim (Bool-cases (same_block p class q other)) [
      | inl e ↦
          let p_eq : p ≡ q = ground arith in
          let c_eq : class ≡ other = ground arith in rw (p_eq, c_eq) (headed, below)
      | inr e ↦
          let found : 0 < occurrences p class rest = ground arith in
          let (h1, h2) = Carved-occurrences base memory (q - 16) p class rest carved found in
          (h1, omega (arith, headed.above_base, below))
    ]

-- It stands there once.
pub occurrences_once :
    (base : ℕ) (memory : Memory) (top p class : ℕ) (blocks : List Block)
    → Carved base memory top blocks
    → occurrences p class blocks ≤ 1
unfolding occurrences
occurrences_once base memory top p class [] carved = omega arith
occurrences_once base memory top p class ((q, other) ∷ rest) (headed, below, carved) =
    let ih = occurrences_once base memory (q - 16) p class rest carved in
    elim (Bool-cases (ltb 0 (occurrences p class rest))) [
      | inl e ↦
          let (h1, h2) =
            Carved-occurrences base memory (q - 16) p class rest carved (ltb→lt 0 _ e) in
          let differs : same_block p class q other ≡ false =
            let above = headed.above_base in let positive = h1.positive in ground arith in
          rw differs (omega (arith, ih))
      | inr e ↦ ground arith
    ]

-- Two different blocks of the list are apart.
pub Carved-Apart :
    (base : ℕ) (memory : Memory) (top p class q other : ℕ) (blocks : List Block)
    → Carved base memory top blocks
    → 0 < occurrences p class blocks
    → 0 < occurrences q other blocks
    → same_block p class q other ≡ false
    → Apart p class q other
unfolding occurrences
Carved-Apart base memory top p class q other [] carved hp hq distinct = absurd (omega arith)
Carved-Apart base memory top p class q other ((r, third) ∷ rest) (headed, below, carved) hp hq
      distinct =
    let above = headed.above_base in
    elim (Bool-cases (same_block p class r third)) [
      | inl e ↦
          let (p_eq, class_eq) = same_block-eq p class r third e in
          let found : 0 < occurrences q other rest = ground arith in
          let (h1, h2) = Carved-occurrences base memory (r - 16) q other rest carved found in
          inr (omega (arith, p_eq, h2))
      | inr e ↦ elim (Bool-cases (same_block q other r third)) [
        | inl e' ↦
            let (q_eq, other_eq) = same_block-eq q other r third e' in
            let found : 0 < occurrences p class rest = ground arith in
            let (h1, h2) = Carved-occurrences base memory (r - 16) p class rest carved found in
            inl (omega (arith, q_eq, h2))
        | inr e' ↦
            Carved-Apart base memory (r - 16) p class q other rest carved (ground arith)
              (ground arith) distinct
      ]
    ]

pub occurrences-remove :
    (p class q other : ℕ) (blocks : List Block)
    → 0 < occurrences p class blocks
    → occurrences q other (remove p class blocks) + (if same_block q other p class then 1 else 0)
      ≡ occurrences q other blocks
unfolding occurrences remove
occurrences-remove p class q other [] h = absurd (omega arith)
occurrences-remove p class q other ((r, third) ∷ rest) h =
    ground (arith, occurrences-remove p class q other rest)

pub class_total-remove :
    (p class : ℕ) (blocks : List Block)
    → 0 < occurrences p class blocks
    → class_total (remove p class blocks) + class ≡ class_total blocks
unfolding occurrences remove class_total
class_total-remove p class [] h = absurd (omega arith)
class_total-remove p class ((r, third) ∷ rest) h = ground (arith, class_total-remove p class rest)

abbrev pub IsApart : ℕ → ℕ → Block → Type 0
IsApart p class block = Apart p class block.0 block.1

-- No two blocks of a list share a byte.
abbrev pub PairwiseApart : List Block → Type 0
PairwiseApart [] = Unit {0}
PairwiseApart ((p, class) ∷ rest) = All (IsApart p class) rest × PairwiseApart rest

pub All-occurrences :
    (P : Block → Type 0) (blocks : List Block)
    → ((p class : ℕ) → 0 < occurrences p class blocks → P (p, class))
    → All P blocks
unfolding occurrences
All-occurrences P [] each = tt
All-occurrences P ((p, class) ∷ rest) each =
    (each p class (ground arith), All-occurrences P rest (λ q other h. each q other (omega arith)))

pub PairwiseApart-occurrences :
    (blocks : List Block)
    → ((p class : ℕ) → occurrences p class blocks ≤ 1)
    → ((p class q other : ℕ)
        → 0 < occurrences p class blocks
        → 0 < occurrences q other blocks
        → same_block p class q other ≡ false
        → Apart p class q other)
    → PairwiseApart blocks
unfolding occurrences
PairwiseApart-occurrences [] once apart = tt
PairwiseApart-occurrences ((p, class) ∷ rest) once apart = (
  All-occurrences (IsApart p class) rest (λ q other h.
      let at_head = once q other in
      apart p class q other (ground arith) (omega arith) (ground (arith, at_head))),
  PairwiseApart-occurrences rest (λ q other. omega (arith, once q other))
      (λ q other r third hq hr. apart q other r third (omega arith) (omega arith)),
)
