-- ===== src/Adapter/Store/Saved.antt =====
-- adapter.mjs: what a storage holds under a prefix, seen as bytes, and the range that `load` makes of
-- it.
use fram.Prelude.{
  ℕ, ◌+◌, ◌*◌, ◌<◌, ◌≤◌, ◌≡◌, refl, sym, ◌∙◌, inl, inr, false, none, some, List, [], length, take,
  Bool-cases, ltb→lt, not_ltb→le, ltb, ok, arith,
}
use mathlib.Core.Path.{subst}
use fram.Adapter.Chunks.Arithmetic.{lt-chunks_of}
use fram.Text.{Text}
use fram.Adapter.Storage.{Storage, get}
use fram.Adapter.Chunks.{ChunkedRange, meta_key, chunks_of, load, load_from}
use fram.Adapter.Chunks.Commit.{HoldsChunks, IsConfigured}
use fram.Adapter.Chunks.Durable.{IsPublished}
use fram.Adapter.Chunks.Load.{load-Loaded}
use fram.Adapter.HostImage.{HostImage, new_image}
use fram.Adapter.HostImage.Tracks.{Fits, new_image-Agrees}
use fram.Adapter.Store.Commit.{Tracks, HoldsImage}

-- The storage holds `bytes` under a prefix, in chunks of some size, and says so.
pub record Stores (map : Storage) (prefix : Text) (bytes : List ℕ) : Type 0 where
  pub range : ChunkedRange
  pub raw : List ℕ
  pub size : ℕ
  pub at_prefix : range.prefix ≡ prefix
  pub configured : IsConfigured range
  pub held : HoldsChunks map range raw size
  pub published : IsPublished map range size
  pub long_enough : size ≤ length raw
  pub content : take size raw ≡ bytes

pub HoldsImage-Stores :
    (map : Storage) (range : ChunkedRange) (object : HostImage) (prefix : Text)
    → range.prefix ≡ prefix
    → Fits object
    → HoldsImage map range object
    → Stores map prefix (take object.size object.bytes)
HoldsImage-Stores map range object prefix at fits (held, published, configured) = record {
  range = range;
  raw = object.bytes;
  size = object.size;
  at_prefix = at;
  configured = configured;
  held = held;
  published = published;
  long_enough = omega (arith, fits.0, fits.1);
  content = refl;
}

-- What the storage holds behind an image that has run ahead of it.
pub Tracks-Stores :
    (map : Storage) (range : ChunkedRange) (object : HostImage) (prefix : Text)
    → range.prefix ≡ prefix
    → (t : Tracks map range object) → Stores map prefix (take t.old_size t.old)
Tracks-Stores map range object prefix at t = record {
  range = range;
  raw = t.old;
  size = t.old_size;
  at_prefix = at;
  configured = t.configured;
  held = t.held;
  published = t.published;
  long_enough = t.long_enough;
  content = refl;
}

-- What `load` makes of a stored prefix: the bytes, and a range that their image tracks.
pub record Reads (map : Storage) (range : ChunkedRange) (bytes : List ℕ) : Type 0 where
  pub loaded : ChunkedRange
  pub returns : load map range ≡ ok (loaded, bytes)
  pub prefix_kept : loaded.prefix ≡ range.prefix
  pub tracks : Tracks map loaded (new_image bytes)

loaded-Tracks :
    (map : Storage) (range : ChunkedRange) (raw : List ℕ) (size : ℕ)
    → size ≤ length raw
    → IsConfigured range
    → HoldsChunks map range raw size
    → IsPublished map range size
    → Tracks map range (new_image (take size raw))
loaded-Tracks map range raw size h configured held published =
    let (fits, agrees) = new_image-Agrees raw size h in
    record {
      old = raw;
      old_size = size;
      configured = configured;
      held = held;
      published = published;
      long_enough = h;
      fits = fits;
      agrees = agrees;
    }

take_none : (raw : List ℕ) → take 0 raw ≡ []
unfolding take
take_none raw = refl

-- The range of a prefix that has no `meta`.
load_unpublished :
    (map : Storage) (range : ChunkedRange)
    → get (meta_key range.prefix) map ≡ none
    → load map range ≡ ok (record range { gets = range.gets + 1; chunk_count = some 0 }, [])
unfolding load load_from
load_unpublished map range absent = rw absent refl

pub no_chunks : (k chunk_bytes : ℕ) → ltb (k * chunk_bytes) 0 ≡ false
no_chunks k chunk_bytes = ground arith

pub no_chunk_count : (chunk_bytes : ℕ) → 0 < chunk_bytes → chunks_of 0 chunk_bytes ≡ 0
no_chunk_count chunk_bytes positive = elim (Bool-cases (ltb 0 (chunks_of 0 chunk_bytes))) [
  | inl e ↦ absurd (omega (arith, lt-chunks_of 0 0 chunk_bytes positive (ltb→lt _ _ e)))
  | inr e ↦ omega (arith, not_ltb→le _ _ e)
]

nothing_held :
    (map : Storage) (range stored : ChunkedRange) (raw : List ℕ)
    → 0 < range.chunk_bytes
    → stored.prefix ≡ range.prefix
    → HoldsChunks map stored raw 0
    → HoldsChunks map (record range { gets = range.gets + 1; chunk_count = some 0 }) [] 0
nothing_held map range stored raw positive at held = record {
  chunk_at = λ k.
      let none_there = held.chunk_at k in
      rw (no_chunks k range.chunk_bytes, sym at)
        (rw (no_chunks k stored.chunk_bytes) at none_there);
  counted = rw (no_chunk_count range.chunk_bytes positive) refl;
}

Reads-no_meta :
    (map : Storage) (range : ChunkedRange) {bytes : List ℕ} (s : Stores map range.prefix bytes)
    → IsConfigured range
    → s.size ≡ 0
    → get (meta_key s.range.prefix) map ≡ none
    → Reads map range []
Reads-no_meta map range s configured empty absent =
    let after : ChunkedRange = record range { gets = range.gets + 1; chunk_count = some 0 } in
    let there : get (meta_key range.prefix) map ≡ none = rw (sym s.at_prefix) absent in
    let held = nothing_held map range s.range s.raw configured.0 s.at_prefix (rw empty at s.held) in
    record {
      loaded = after;
      returns = load_unpublished map range there;
      prefix_kept = refl;
      tracks =
          subst (λ (image : List ℕ). Tracks map after (new_image image)) (take_none [])
            (loaded-Tracks map after [] 0 (omega arith) configured held (inr (refl, there)));
    }

pub load-Stores :
    (map : Storage) (range : ChunkedRange) (bytes : List ℕ)
    → IsConfigured range
    → Stores map range.prefix bytes
    → Reads map range bytes
load-Stores map range bytes configured s = elim s.published [
  | inl published ↦
      let l =
        load-Loaded map range s.range s.raw s.size s.long_enough configured.1 s.configured.0
          s.at_prefix s.held published in
      record {
        loaded = l.loaded;
        returns = rw (sym s.content) l.returns;
        prefix_kept = l.keeps_prefix;
        tracks = rw (sym s.content) (
            loaded-Tracks map l.loaded s.raw s.size s.long_enough
              (let positive = s.configured.0 in
                (rw l.takes_chunk_bytes positive, rw l.keeps_batch_keys configured.1))
              l.holds (inl (rw (l.keeps_prefix, l.takes_chunk_bytes, sym s.at_prefix) published)));
      }
  | inr (empty, absent) ↦
      let nothing : bytes ≡ [] = sym s.content ∙ rw (empty, take_none s.raw) refl in
      rw nothing (Reads-no_meta map range s configured empty absent)
]
