-- ===== src/Sfu/Subscriber/Tracks.antt =====
-- The list of a stream's tracks, as tracks come (`add_down_track`) and go (`remove_down_track`).
use rsfu.Prelude.{
  ℕ, ◌+◌, ◌%◌, ◌^◌, ◌<◌, true, false, Option, none, some, List, [], ◌∷◌, ◌++◌, String, ltb,
  if◌then◌else◌, take, drop, length, ◌≡◌, refl, sym, ap, ◌∙◌, arith, suc,
}
use mathlib.Core.List.{append_assoc, append-nil}
use rsfu.Prelude.Texts.{same, same_self}
use rsfu.Prelude.Maps.{lookup, text_key, lookup-insert_self, lookup-insert_ne}
use rsfu.Sfu.DownTrack.{DownTrack}
use rsfu.Sfu.Subscriber.{
  Subscriber, add_down_track, remove_down_track, get_downtracks, last_index, removed, pushed,
}

unfoldable pub add_all : Subscriber → String → List DownTrack → Subscriber
add_all s stream_id [] = s
add_all s stream_id (d ∷ ds) = add_all (add_down_track s stream_id d) stream_id ds

add_down_track-lookup :
    (s : Subscriber) (stream_id : String) (d : DownTrack)
    → get_downtracks (add_down_track s stream_id d) stream_id
      ≡ some (pushed (get_downtracks s stream_id) d)
unfolding add_down_track
add_down_track-lookup s stream_id d =
    lookup-insert_self s.tracks stream_id (pushed (lookup s.tracks stream_id) d)

add_all-known :
    (s : Subscriber) (stream_id : String) (old ds : List DownTrack)
    → get_downtracks s stream_id ≡ some old
    → get_downtracks (add_all s stream_id ds) stream_id ≡ some (old ++ ds)
unfolding add_all
add_all-known s stream_id old [] h = h ∙ ap some (sym (append-nil old))
add_all-known s stream_id old (d ∷ ds) h =
    add_all-known (add_down_track s stream_id d) stream_id (old ++ d ∷ []) ds
      (add_down_track-lookup s stream_id d ∙ ap (λ o. some (pushed o d)) h)
    ∙ ap some (append_assoc old (d ∷ []) ds)

-- The tracks of a stream that the subscriber knows none of: of those added one after the other, all are
-- kept in their order but the first, which is in no list.
pub add_all-get_downtracks :
    (s : Subscriber) (stream_id : String) (d : DownTrack) (ds : List DownTrack)
    → get_downtracks s stream_id ≡ none
    → get_downtracks (add_all s stream_id (d ∷ ds)) stream_id ≡ some ds
unfolding add_all
add_all-get_downtracks s stream_id d ds h =
    add_all-known (add_down_track s stream_id d) stream_id [] ds
      (add_down_track-lookup s stream_id d ∙ ap (λ o. some (pushed o d)) h)

-- No track of the list has the id.
abbrev pub Lacks : List DownTrack → String → Type 0
Lacks [] id = Unit {0}
Lacks (d ∷ ds) id = (same d.down_track_local.id id ≡ false) × Lacks ds id

last_index-Lacks :
    (ds : List DownTrack) (id : String) (i : ℕ) (idx : Option ℕ)
    → Lacks ds id
    → last_index ds id i idx ≡ idx
unfolding last_index
last_index-Lacks [] id i idx h = refl
last_index-Lacks (d ∷ ds) id i idx (h, hs) = rw h (last_index-Lacks ds id (i + 1) idx hs)

last_index-append :
    (before after : List DownTrack) (d : DownTrack) (id : String) (i : ℕ) (idx : Option ℕ)
    → same d.down_track_local.id id ≡ true
    → Lacks after id
    → last_index (before ++ d ∷ after) id i idx ≡ some (length before + i)
unfolding last_index
last_index-append [] after d id i idx own h =
    last_index-Lacks after id (i + 1) (if same d.down_track_local.id id then some i else idx) h
    ∙ ap (λ b. if b then some i else idx) own
    ∙ ap some (omega arith)
last_index-append (b ∷ before) after d id i idx own h =
    last_index-append before after d id (i + 1)
      (if same b.down_track_local.id id then some i else idx) own h
    ∙ ap some (omega arith)

take-drop_around :
    (before after : List DownTrack) (d : DownTrack)
    → take (length before) (before ++ d ∷ after) ++ drop (suc (length before)) (before ++ d ∷ after)
      ≡ before ++ after
take-drop_around [] after d = refl
take-drop_around (b ∷ before) after d = rw (take-drop_around before after d) refl

removed_at :
    (before after : List DownTrack) (d : DownTrack)
    → length before < 2 ^ 15
    → removed (before ++ d ∷ after) (some (length before)) ≡ before ++ after
removed_at before after d few =
    let idx : length before % 2 ^ 16 ≡ length before = ground arith in
    let in_range : ltb (length before) (2 ^ 15) ≡ true = ground arith in
    let next : length before + 1 ≡ suc (length before) = omega arith in
    rw (idx, in_range, next) (take-drop_around before after d)

-- A track that stands in its stream's list behind fewer than 2 ^ 15 others, and before none with its own
-- id, goes from that list when it is removed, and the others stay in their order; the lists of the other
-- streams stay as they are.
pub remove_down_track-append :
    (s : Subscriber) (stream_id other : String) (before after : List DownTrack) (d : DownTrack)
    → get_downtracks s stream_id ≡ some (before ++ d ∷ after)
    → length before < 2 ^ 15
    → Lacks after d.down_track_local.id
    → same stream_id other ≡ false
    → (get_downtracks (remove_down_track s stream_id d) stream_id ≡ some (before ++ after))
      × (get_downtracks (remove_down_track s stream_id d) other ≡ get_downtracks s other)
unfolding remove_down_track
remove_down_track-append s stream_id other before after d known few lacks ne =
    let at : last_index (before ++ d ∷ after) d.down_track_local.id 0 none ≡ some (length before) =
      last_index-append before after d d.down_track_local.id 0 none
        (same_self d.down_track_local.id) lacks
      ∙ ap some (omega arith) in
    rw (known, at, removed_at before after d few)
      (
        lookup-insert_self s.tracks stream_id (before ++ after),
        lookup-insert_ne s.tracks stream_id other (before ++ after) ne,
      )
