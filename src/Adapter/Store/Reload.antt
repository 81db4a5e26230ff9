-- ===== src/Adapter/Store/Reload.antt =====
-- adapter.mjs: a store opened again on the storage of a landed commit.
use fram.Prelude.{
  ℕ, ◌+◌, ◌<◌, ◌≤◌, ◌≡◌, refl, sym, inl, inr, none, some, List, [], take, length, ok, arith,
}
use fram.Adapter.Storage.{Storage, get}
use fram.Adapter.Chunks.{ChunkedRange, load, load_from, meta_key, new_range}
use fram.Adapter.Chunks.Load.{load-Loaded}
use fram.Adapter.HostImage.{HostImage}
use fram.Adapter.Store.{Outcome, Host, commit, new_store}
use fram.Adapter.Store.Commit.{HoldsImage, IsTracked}
use fram.Adapter.Store.Lands.{commit-lands}

-- What `load` returns, without the range.
abbrev pub Loads : Storage → ChunkedRange → List ℕ → Type 0
Loads map range bytes = (r : ChunkedRange) × (load map range ≡ ok (r, bytes))

take_none : (bytes : List ℕ) → take 0 bytes ≡ []
unfolding take
take_none bytes = refl

load-HoldsImage :
    (map : Storage) (range stored : ChunkedRange) (object : HostImage)
    → object.size ≤ length object.bytes
    → 0 < range.batch_keys
    → stored.prefix ≡ range.prefix
    → HoldsImage map stored object
    → Loads map range (take object.size object.bytes)
unfolding load load_from
load-HoldsImage map range stored object hb hk hp (held, inl published, configured) =
    let l =
      load-Loaded map range stored object.bytes object.size hb hk configured.0 hp held published in
    (l.loaded, unfold load in l.returns)
load-HoldsImage map range stored object hb hk hp (held, inr (empty, unpublished), configured) =
    let absent : get (meta_key range.prefix) map ≡ none = rw (sym hp) unpublished in
    (
      record range { gets = range.gets + 1; chunk_count = some 0 },
      rw (absent, empty, take_none object.bytes) refl,
    )

-- A store opened on the storage that a landed commit left, with any chunk size and any positive
-- number of keys in a batch, loads the bytes that the log and the snapshot image of the instance
-- held at the commit.
pub load-commit :
    (host : Host) (chunk_bytes batch_keys : ℕ)
    → IsTracked host
    → 0 < batch_keys
    → let map = (commit Outcome.lands host).store.storage in
      let opened = new_store map chunk_bytes batch_keys in
      Loads map opened.log_range (take host.log_image.size host.log_image.bytes)
      × Loads map opened.image_range (take host.snapshot_image.size host.snapshot_image.bytes)
unfolding new_store new_range
load-commit host chunk_bytes batch_keys tracked h =
    let landed = commit-lands host tracked in
    (
      load-HoldsImage _ _ _ host.log_image
          (omega (arith, tracked.log_tracks.fits.0, tracked.log_tracks.fits.1)) (omega arith)
          landed.tracked.log_prefix landed.log_holds,
      load-HoldsImage _ _ _ host.snapshot_image
          (omega (arith, tracked.image_tracks.fits.0, tracked.image_tracks.fits.1)) (omega arith)
          landed.tracked.image_prefix landed.image_holds,
    )
