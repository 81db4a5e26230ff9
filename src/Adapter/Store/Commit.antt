-- ===== src/Adapter/Store/Commit.antt =====
-- adapter.mjs: after a commit that lands, the storage holds the bytes that the two images hold.
use fram.Prelude.{ℕ, ◌≤◌, ◌≡◌, sym, some, List, length, take, ok}
use fram.Text.{codes}
use fram.Adapter.Storage.{Storage}
use fram.Adapter.Chunks.{ChunkedRange, Plan, chunks_of, plan, plan_with, apply_to, settle}
use fram.Adapter.Chunks.Keys.{Apart}
use fram.Adapter.Chunks.Effects.{prefix_eq, chunk_bytes_eq, batch_keys_eq}
use fram.Adapter.Chunks.Commit.{HoldsChunks, IsConfigured, apply_to-SameRange}
use fram.Adapter.Chunks.Durable.{
  plan-eq, apply_to-HoldsChunks, apply_to-HoldsChunks_other, IsPublished, apply_to-IsPublished,
  apply_to-IsPublished_other, HoldsChunks-same_bytes,
}
use fram.Adapter.HostImage.{HostImage, low_of}
use fram.Adapter.HostImage.Tracks.{Agrees, Fits}
use fram.Adapter.Store.{Host}

-- A range that the storage holds, and the image that has run ahead of it.
pub record Tracks (map : Storage) (range : ChunkedRange) (object : HostImage) : Type 0 where
  pub old : List ℕ
  pub old_size : ℕ
  pub configured : IsConfigured range
  pub held : HoldsChunks map range old old_size
  pub published : IsPublished map range old_size
  pub long_enough : old_size ≤ length old
  pub fits : Fits object
  pub agrees : Agrees object old old_size

-- Both ranges of an instance are tracked, under the prefixes that the store gives them.
pub record IsTracked (host : Host) : Type 0 where
  pub log_prefix : host.store.log_range.prefix ≡ codes "framlog/"
  pub image_prefix : host.store.image_range.prefix ≡ codes "framimage/"
  pub log_tracks : Tracks host.store.storage host.store.log_range host.log_image
  pub image_tracks : Tracks host.store.storage host.store.image_range host.snapshot_image

-- The storage holds the bytes of an image, as the range says.
abbrev pub HoldsImage : Storage → ChunkedRange → HostImage → Type 0
HoldsImage map range object =
    HoldsChunks map range object.bytes object.size
    × IsPublished map range object.size
    × IsConfigured range

pub clean_image :
    (map : Storage) (range : ChunkedRange) (object : HostImage) (tracks : Tracks map range object)
    → tracks.old_size ≡ object.size
    → take object.size tracks.old ≡ take object.size object.bytes
    → HoldsImage map range object
clean_image map range object tracks size agree = (
  HoldsChunks-same_bytes map range tracks.old object.bytes object.size agree
      (rw (sym size) tracks.held),
  rw (sym size) tracks.published,
  tracks.configured,
)

-- One dirty image: its plan, and what applying and settling it leaves.
pub record PublishesPart (map : Storage) (range : ChunkedRange) (object : HostImage) (pl : Plan)
    : Type 0 where
  pub planned : plan range object.bytes object.size (low_of object.low_water) ≡ ok pl
  pub holds :
      HoldsImage (apply_to pl (range, map)).1 (settle pl (apply_to pl (range, map)).0) object
  pub prefix_kept : (settle pl (apply_to pl (range, map)).0).prefix ≡ range.prefix
  pub spares :
      (other : ChunkedRange) (behind_image : HostImage)
      → Apart range.prefix other.prefix
      → Tracks map other behind_image
      → Tracks (apply_to pl (range, map)).1 other behind_image
  pub spares_image :
      (other : ChunkedRange) (clean_object : HostImage)
      → Apart range.prefix other.prefix
      → HoldsImage map other clean_object
      → HoldsImage (apply_to pl (range, map)).1 other clean_object

pub publish_part :
    (map : Storage) (range : ChunkedRange) (object : HostImage) (tracks : Tracks map range object)
    (low : ℕ)
    → object.low_water ≡ some low
    → low ≤ tracks.old_size
    → low ≤ object.size
    → take low tracks.old ≡ take low object.bytes
    → PublishesPart map range object
        (plan_with range (chunks_of tracks.old_size range.chunk_bytes) object.bytes object.size low)
publish_part map range object tracks low marked below within bytes =
    let count = chunks_of tracks.old_size range.chunk_bytes in
    let pl = plan_with range count object.bytes object.size low in
    let hb = tracks.configured.1 in
    let kept = apply_to-SameRange pl range map in
    record {
      planned = rw marked (unfold low_of in plan-eq object.bytes object.size low tracks.held);
      holds = (
        apply_to-HoldsChunks map range tracks.old object.bytes tracks.old_size object.size low
            tracks.configured tracks.held below within bytes,
        apply_to-IsPublished map range count object.bytes object.size low hb,
        unfold settle in rw (chunk_bytes_eq kept, batch_keys_eq kept) tracks.configured,
      );
      prefix_kept = unfold settle in prefix_eq kept;
      spares = λ other behind_image apart t. record {
        old = t.old;
        old_size = t.old_size;
        configured = t.configured;
        held =
            apply_to-HoldsChunks_other map range other count object.bytes t.old object.size low
              t.old_size hb apart t.held;
        published =
            apply_to-IsPublished_other map range other count object.bytes object.size low t.old_size
              hb apart t.published;
        long_enough = t.long_enough;
        fits = t.fits;
        agrees = t.agrees;
      };
      spares_image = λ other clean_object apart (held, published, configured). (
        apply_to-HoldsChunks_other map range other count object.bytes clean_object.bytes object.size
            low clean_object.size hb apart held,
        apply_to-IsPublished_other map range other count object.bytes object.size low
            clean_object.size hb apart published,
        configured,
      );
    }
