-- ===== src/Adapter/Store/Lands.antt =====
-- adapter.mjs: `#commit` of FramInstance over both images, where the transaction lands and where it
-- is rejected.
use fram.Prelude.{◌≡◌, refl, sym, ◌∙◌, true, false, arith}
use fram.Text.{Text}
use fram.Adapter.Storage.{Storage}
use fram.Adapter.Chunks.{ChunkedRange, Plan, apply_to, settle}
use fram.Adapter.Chunks.Keys.{Apart, log-Apart, image-Apart}
use fram.Adapter.HostImage.{HostImage, take_commit}
use fram.Adapter.HostImage.Tracks.{clean, behind, Fits}
use fram.Adapter.Store.{
  Outcome, Host, range_of, set_range, stage, apply_all, settle_all, run, commit_parts, part_of,
  taken, finish, is_clean, commit,
}
use fram.Adapter.Store.Commit.{
  Tracks, IsTracked, HoldsImage, PublishesPart, clean_image, publish_part,
}

-- What a landed commit leaves of a host: the storage holds the bytes of both images, and the
-- instance goes on tracking them.
pub record Landed (host after : Host) : Type 0 where
  pub log_holds : HoldsImage after.store.storage after.store.log_range host.log_image
  pub image_holds : HoldsImage after.store.storage after.store.image_range host.snapshot_image
  pub tracked : IsTracked after
  pub alive : after.poisoned ≡ host.poisoned

-- An image that the storage holds, after its part was taken.
taken-Tracks :
    (map : Storage) (range : ChunkedRange) (object : HostImage)
    → Fits object
    → HoldsImage map range object
    → Tracks map range (take_commit object).1
unfolding take_commit
taken-Tracks map range object fits (held, published, configured) = record {
  old = object.bytes;
  old_size = object.size;
  configured = configured;
  held = held;
  published = published;
  long_enough = omega (arith, fits.0, fits.1);
  fits = fits;
  agrees = clean refl refl refl refl;
}

-- An image as a commit finds it: clean and held, or dirty with a plan that can be made.
data Status (map : Storage) (range : ChunkedRange) (object : HostImage) : Type 0 where
  is_held : object.dirty ≡ false → HoldsImage map range object → Status map range object
  is_dirty :
      object.dirty ≡ true
      → (pl : Plan) → PublishesPart map range object pl
      → Status map range object

status :
    (map : Storage) (range : ChunkedRange) (object : HostImage)
    → Tracks map range object
    → Status map range object
status map range object tracks = elim tracks.agrees [
  | clean low dirty size bytes ↦ is_held dirty (clean_image map range object tracks size bytes)
  | behind low marked dirty below within bytes ↦
      is_dirty dirty _ (publish_part map range object tracks low marked below within bytes)
]

apart : {p q p' q' : Text} → p ≡ p' → q ≡ q' → Apart p' q' → Apart p q
apart e f h = rw (e, f) h

module _ (host : Host) (tracked : IsTracked host) where
  held_both :
      host.log_image.dirty ≡ false
      → host.snapshot_image.dirty ≡ false
      → HoldsImage host.store.storage host.store.log_range host.log_image
      → HoldsImage host.store.storage host.store.image_range host.snapshot_image
      → Landed host (commit Outcome.lands host)
  unfolding commit is_clean
  held_both dl di a b =
      rw (dl, di)
        (record {
          log_holds = a;
          image_holds = b;
          tracked = record {
            log_prefix = tracked.log_prefix;
            image_prefix = tracked.image_prefix;
            log_tracks = rw (sym dl) tracked.log_tracks;
            image_tracks = rw (sym di) tracked.image_tracks;
          };
          alive = refl;
        })

  land_log :
      (log_plan : Plan)
      → host.log_image.dirty ≡ true
      → host.snapshot_image.dirty ≡ false
      → PublishesPart host.store.storage host.store.log_range host.log_image log_plan
      → HoldsImage
          (apply_to log_plan (host.store.log_range, host.store.storage)).1
          host.store.image_range
          host.snapshot_image
      → Landed host (commit Outcome.lands host)
  unfolding commit is_clean part_of finish taken commit_parts stage run apply_all settle_all
      range_of set_range take_commit
  land_log log_plan dl di a b =
      let apart_image = apart tracked.log_prefix tracked.image_prefix log-Apart in
      rw (dl, di)
        (rw a.planned (record {
          log_holds = a.holds;
          image_holds = b;
          tracked = record {
            log_prefix = a.prefix_kept ∙ tracked.log_prefix;
            image_prefix = tracked.image_prefix;
            log_tracks = taken-Tracks _ _ host.log_image tracked.log_tracks.fits a.holds;
            image_tracks = rw (sym di) (
                a.spares host.store.image_range host.snapshot_image apart_image
                  tracked.image_tracks);
          };
          alive = refl;
        }))

  land_image :
      (image_plan : Plan)
      → host.log_image.dirty ≡ false
      → host.snapshot_image.dirty ≡ true
      → HoldsImage host.store.storage host.store.log_range host.log_image
      → PublishesPart host.store.storage host.store.image_range host.snapshot_image image_plan
      → Landed host (commit Outcome.lands host)
  unfolding commit is_clean part_of finish taken commit_parts stage run apply_all settle_all
      range_of set_range take_commit
  land_image image_plan dl di a b =
      let apart_log = apart tracked.image_prefix tracked.log_prefix image-Apart in
      rw (dl, di)
        (rw b.planned (record {
          log_holds = b.spares_image host.store.log_range host.log_image apart_log a;
          image_holds = b.holds;
          tracked = record {
            log_prefix = tracked.log_prefix;
            image_prefix = b.prefix_kept ∙ tracked.image_prefix;
            log_tracks =
                rw (sym dl)
                  (b.spares host.store.log_range host.log_image apart_log tracked.log_tracks);
            image_tracks = taken-Tracks _ _ host.snapshot_image tracked.image_tracks.fits b.holds;
          };
          alive = refl;
        }))

  land_both :
      (log_plan image_plan : Plan)
      → host.log_image.dirty ≡ true
      → host.snapshot_image.dirty ≡ true
      → PublishesPart host.store.storage host.store.log_range host.log_image log_plan
      → PublishesPart
          (apply_to log_plan (host.store.log_range, host.store.storage)).1
          host.store.image_range
          host.snapshot_image
          image_plan
      → Landed host (commit Outcome.lands host)
  unfolding commit is_clean part_of finish taken commit_parts stage run apply_all settle_all
      range_of set_range take_commit
  land_both log_plan image_plan dl di a b =
      let settled =
        settle log_plan (apply_to log_plan (host.store.log_range, host.store.storage)).0 in
      let log_part =
        b.spares_image settled host.log_image
          (apart tracked.image_prefix (a.prefix_kept ∙ tracked.log_prefix) image-Apart) a.holds in
      rw (dl, di)
        (rw (a.planned, b.planned)
          (record {
            log_holds = log_part;
            image_holds = b.holds;
            tracked = record {
              log_prefix = a.prefix_kept ∙ tracked.log_prefix;
              image_prefix = b.prefix_kept ∙ tracked.image_prefix;
              log_tracks = taken-Tracks _ _ host.log_image tracked.log_tracks.fits log_part;
              image_tracks = taken-Tracks _ _ host.snapshot_image tracked.image_tracks.fits b.holds;
            };
            alive = refl;
          }))

  -- In a commit that lands, an instance that tracks its storage leaves there, under the keys of each
  -- range, exactly the bytes that its image of the range holds, and goes on tracking the storage.
  pub commit-lands : Landed host (commit Outcome.lands host)
  commit-lands =
      let store = host.store in
      elim (status store.storage store.log_range host.log_image tracked.log_tracks) [
        | is_held dl a ↦
            elim (status store.storage store.image_range host.snapshot_image tracked.image_tracks) [
              | is_held di b ↦ held_both dl di a b
              | is_dirty di image_plan b ↦ land_image image_plan dl di a b
            ]
        | is_dirty dl log_plan a ↦
            elim (status (apply_to log_plan (store.log_range, store.storage)).1 store.image_range
              host.snapshot_image
              (a.spares store.image_range host.snapshot_image
                (apart tracked.log_prefix tracked.image_prefix log-Apart) tracked.image_tracks)) [
                  | is_held di b ↦ land_log log_plan dl di a b
                  | is_dirty di image_plan b ↦ land_both log_plan image_plan dl di a b
                ]
      ]
