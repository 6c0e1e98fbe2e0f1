-- ===== src/Buffer/Factory/Sharing.antt =====
-- Two requests for a buffer get the same buffer exactly when they name the same stream.
use rsfu.Prelude.{
  ℕ, ◌+◌, ◌<◌, none, some, List, [], ◌∷◌, ◌≡◌, ◌↔◌, sym, ap, ◌∙◌, arith, inl, inr, Option-cases,
  ◌==◌, if◌then◌else◌,
}
use mathlib.Core.Option.{some_inj}
use rsfu.Prelude.Maps.{lookup, number_key, lookup-insert}
use rsfu.Buffer.Factory.{Factory, get_or_new_buffer, buffer_or_new}

-- Each buffer in the map was made, and stands there for one stream.
pub record IsSound (f : Factory) : Type 0 where
  pub below : (ssrc b : ℕ) → lookup f.rtp_buffers ssrc ≡ some b → b < f.made
  pub apart :
      (ssrc ssrc' b : ℕ)
      → lookup f.rtp_buffers ssrc ≡ some b
      → lookup f.rtp_buffers ssrc' ≡ some b
      → ssrc ≡ ssrc'

unfoldable pub request_all : Factory → List ℕ → Factory
request_all f [] = f
request_all f (s ∷ ss) = request_all (get_or_new_buffer f s).1 ss

-- With a new buffer for `s`.
abbrev with_new : Factory → ℕ → Factory
with_new f s = (buffer_or_new f s none).1

looked :
    (f : Factory) (s ssrc : ℕ)
    → lookup (with_new f s).rtp_buffers ssrc
      ≡ (if s == ssrc then some f.made else lookup f.rtp_buffers ssrc)
looked f s ssrc = lookup-insert f.rtp_buffers s ssrc f.made

new_kept :
    (f : Factory) (s ssrc b : ℕ)
    → lookup f.rtp_buffers s ≡ none
    → lookup f.rtp_buffers ssrc ≡ some b
    → lookup (with_new f s).rtp_buffers ssrc ≡ some b
new_kept f s ssrc b new h = ground (arith, looked f s ssrc, new, h)

new_below :
    (f : Factory) (s ssrc b : ℕ)
    → IsSound f
    → lookup (with_new f s).rtp_buffers ssrc ≡ some b
    → b < f.made + 1
new_below f s ssrc b sound h = ground (arith, looked f s ssrc, h, sound.below ssrc b)

new_apart :
    (f : Factory) (s ssrc ssrc' b : ℕ)
    → IsSound f
    → lookup (with_new f s).rtp_buffers ssrc ≡ some b
    → lookup (with_new f s).rtp_buffers ssrc' ≡ some b
    → ssrc ≡ ssrc'
new_apart f s ssrc ssrc' b sound h h' = ground (
  arith,
  looked f s ssrc,
  looked f s ssrc',
  h,
  h',
  sound.below ssrc b,
  sound.below ssrc' b,
  sound.apart ssrc ssrc' b,
)

new-IsSound : (f : Factory) (s : ℕ) → IsSound f → IsSound (with_new f s)
new-IsSound f s sound = record {
  below = λ ssrc b h. new_below f s ssrc b sound h;
  apart = λ ssrc ssrc' b h h'. new_apart f s ssrc ssrc' b sound h h';
}

buffer_there :
    (f : Factory) (s : ℕ)
    → lookup (get_or_new_buffer f s).1.rtp_buffers s ≡ some (get_or_new_buffer f s).0
unfolding get_or_new_buffer
buffer_there f s = elim (Option-cases (lookup f.rtp_buffers s)) [
  | inl new ↦ rw new (looked f s s ∙ ground arith)
  | inr (b, old) ↦ rw old old
]

kept :
    (f : Factory) (s ssrc b : ℕ)
    → lookup f.rtp_buffers ssrc ≡ some b
    → lookup (get_or_new_buffer f s).1.rtp_buffers ssrc ≡ some b
unfolding get_or_new_buffer
kept f s ssrc b h = elim (Option-cases (lookup f.rtp_buffers s)) [
  | inl new ↦ rw new (new_kept f s ssrc b new h)
  | inr (b', old) ↦ rw old h
]

pub get_or_new_buffer-IsSound :
    (f : Factory) (s : ℕ) → IsSound f → IsSound (get_or_new_buffer f s).1
unfolding get_or_new_buffer
get_or_new_buffer-IsSound f s sound = elim (Option-cases (lookup f.rtp_buffers s)) [
  | inl new ↦ rw new (new-IsSound f s sound)
  | inr (b, old) ↦ rw old sound
]

all_kept :
    (f : Factory) (ss : List ℕ) (ssrc b : ℕ)
    → lookup f.rtp_buffers ssrc ≡ some b
    → lookup (request_all f ss).rtp_buffers ssrc ≡ some b
unfolding request_all
all_kept f [] ssrc b h = h
all_kept f (s ∷ ss) ssrc b h = all_kept (get_or_new_buffer f s).1 ss ssrc b (kept f s ssrc b h)

all-IsSound : (f : Factory) (ss : List ℕ) → IsSound f → IsSound (request_all f ss)
unfolding request_all
all-IsSound f [] sound = sound
all-IsSound f (s ∷ ss) sound =
    all-IsSound (get_or_new_buffer f s).1 ss (get_or_new_buffer-IsSound f s sound)

-- Of a factory whose buffers stand for one stream each, whatever buffers are asked for between two
-- requests: the two get the same buffer if they name the same stream, and only then.
pub get_or_new_buffer-request_all :
    (f : Factory) (s s' : ℕ) (between : List ℕ)
    → IsSound f
    → ((get_or_new_buffer f s).0
        ≡ (get_or_new_buffer (request_all (get_or_new_buffer f s).1 between) s').0)
      ↔ (s ≡ s')
get_or_new_buffer-request_all f s s' between sound =
    let g = request_all (get_or_new_buffer f s).1 between in
    let first : lookup g.rtp_buffers s ≡ some (get_or_new_buffer f s).0 =
      all_kept (get_or_new_buffer f s).1 between s (get_or_new_buffer f s).0 (buffer_there f s) in
    let later : IsSound (get_or_new_buffer g s').1 =
      get_or_new_buffer-IsSound g s'
        (all-IsSound (get_or_new_buffer f s).1 between (get_or_new_buffer-IsSound f s sound)) in
    let first' = kept g s' s (get_or_new_buffer f s).0 first in
    (
      λ same.
          later.apart s s' (get_or_new_buffer f s).0 first'
            (buffer_there g s' ∙ ap some (sym same)),
      λ same. some_inj.0 (
          sym first'
          ∙ ap (λ k. lookup (get_or_new_buffer g s').1.rtp_buffers k) same
          ∙ buffer_there g s'),
    )
