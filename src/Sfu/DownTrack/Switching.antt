-- ===== src/Sfu/DownTrack/Switching.antt =====
-- To which layer a track that is not simulcast is switched.
use rsfu.Prelude.{
  ℕ, ◌%◌, ◌^◌, ◌≡◌, refl, ap, ◌∙◌, Bool, false, not, some, List, [], ◌∷◌, arith, ltb, leb, ◌==◌,
  if◌then◌else◌, done, blocked,
}
use rsfu.Sfu.DownTrack.{DownTrack, simple_down_track}
use rsfu.Sfu.DownTrack.Layers.{untrack_by, Found, see, find_layers, untrack_layers_change}

abbrev pub larger : ℕ → ℕ → ℕ
larger a b = if ltb a b then b else a

-- The largest of the layers up to `max_layer`, or 0.
abbrev pub best : ℕ → List ℕ → ℕ
best max_layer [] = 0
best max_layer (t ∷ ts) =
    if leb t max_layer then larger t (best max_layer ts) else best max_layer ts

see_lem :
    (max_layer t : ℕ) (s : Found)
    → s.min_found ≡ 0
    → (if s.layer_found then 0 else s.max_found) ≡ 0
    → let s' = see max_layer t s in
      (s'.min_found ≡ 0)
      × ((if s'.layer_found then 0 else s'.max_found) ≡ 0)
      × (s'.max_found ≡ (if leb t max_layer then larger s.max_found t else s.max_found))
unfolding see
see_lem max_layer t s min none_yet = (ground arith, ground arith, ground arith)

find_layers-best :
    (max_layer : ℕ) (ts : List ℕ) (s : Found)
    → s.min_found ≡ 0
    → (if s.layer_found then 0 else s.max_found) ≡ 0
    → let found = find_layers max_layer ts s in
      (if found.layer_found then found.max_found else found.min_found)
      ≡ larger s.max_found (best max_layer ts)
unfolding find_layers
find_layers-best max_layer [] s min none_yet = ground arith
find_layers-best max_layer (t ∷ ts) s min none_yet =
    let (min', none_yet', most) = see_lem max_layer t s min none_yet in
    find_layers-best max_layer ts (see max_layer t s) min' none_yet'
    ∙ ap (λ m. larger m (best max_layer ts)) most
    ∙ ground arith

module _ (admits : ℕ → Bool) where
  -- Of the available layers a track that is not simulcast is to take the largest up to its maximum, or
  -- layer 0 where there is none, though that be not available. Where that is its layer already it
  -- stays; otherwise the call never ends, as it holds the lock that the switch takes.
  pub untrack_layers_change-best :
      (d : DownTrack) (available_layers : List ℕ)
      → d.track_type ≡ simple_down_track
      → let target = best (d.max_spatial_layer % 2 ^ 16) available_layers in
        untrack_layers_change admits d available_layers
        ≡ (if d.current_spatial_layer % 2 ^ 16 == target then done (d, some target) else blocked)
  unfolding untrack_layers_change untrack_by
  untrack_layers_change-best d available_layers type =
      let start : Found = record { min_found = 0; max_found = 0; layer_found = false } in
      let e = find_layers-best (d.max_spatial_layer % 2 ^ 16) available_layers start refl refl in
      ap (λ t. untrack_by t admits d available_layers) type
      ∙ ap
          (λ target.
            if not (d.current_spatial_layer % 2 ^ 16 == target)
            then blocked
            else done (d, some target))
          e
      ∙ ground arith
