-- ===== src/Web/LiveMedia/Replaced.antt =====
-- The class `LiveMedia` of apps/web/src/lib/liveMedia.ts: the microphones that later ones have replaced.
use call_sign.Prelude.Tests.{if-cases}
use call_sign.Prelude.{
  ap, ℕ, zero, suc, refl, ◌++◌, length-append, ◌≡◌, ◌≤◌, length, Option, none, some, Bool, not,
  ◌||◌, List, [], ◌∷◌, arith,
}
use call_sign.Web.LiveMedia.{
  change_at, Reply, tracks_of, remote_track, recording_ended, mute, pause, resume,
  prepare_receive_only, set_enabled, close, accept_replaced, Track, LiveMedia, Wait, Outcome, Event,
  is_given, is_live, prepare_microphone, microphone_given, accept, play_recording,
  recording_replaced, use_microphone, microphone_replaced, continue, settle, pick, step, run,
}

length-change_at :
    (n : ℕ) (f : Track → Track) (ts : List Track) → length (change_at n f ts) ≡ length ts
unfolding change_at
length-change_at n f [] = refl
length-change_at zero f (t ∷ ts) = refl
length-change_at (suc n) f (t ∷ ts) = omega (arith, length-change_at n f ts)

-- No call takes a track out of `replaced`.
abbrev pub Grows : LiveMedia → LiveMedia → Type 0
Grows m n = length m.replaced ≤ length n.replaced

module _ (m : LiveMedia) where
  abbrev GrowsTo : Reply → Type 0
  GrowsTo r = Grows m r.0

  close-Grows : (n : LiveMedia) → Grows m n → Grows m (close n)
  unfolding close
  close-Grows n h = if-cases (Grows m) n.closed (λ e. h) (λ e. h)

  same : (n : LiveMedia) → n.replaced ≡ m.replaced → Grows m n
  same n e = rw e (omega arith)

  microphone_given-Grows :
      (stream : Option Track) (adds : Bool) → GrowsTo (microphone_given stream adds m)
  unfolding microphone_given
  microphone_given-Grows stream adds =
      let more : length m.replaced ≤ length (m.replaced ++ tracks_of m.microphone) =
        omega (arith, length-append m.replaced (tracks_of m.microphone)) in
      if-cases GrowsTo m.closed (λ e. same m refl)
        (λ e.
          if-cases GrowsTo (not (is_live stream) || not adds) (λ e'. close-Grows _ more)
            (λ e'. more))

  accept_replaced-Grows : (b : Bool) (taken : ℕ) → GrowsTo (accept_replaced b taken m)
  unfolding accept_replaced
  accept_replaced-Grows b taken =
      if-cases GrowsTo (m.closed || not (is_live m.microphone)) (λ e. same m refl)
        (λ e. omega (arith, length-change_at taken (set_enabled (not b)) m.replaced))

  accept-Grows : (b : Bool) → GrowsTo (accept b m)
  unfolding accept
  accept-Grows b = ground arith

  prepare_microphone-Grows : GrowsTo (prepare_microphone m)
  unfolding prepare_microphone
  prepare_microphone-Grows = ground arith

  prepare_receive_only-Grows : GrowsTo (prepare_receive_only m)
  unfolding prepare_receive_only
  prepare_receive_only-Grows = ground arith

  use_microphone-Grows : GrowsTo (use_microphone m)
  unfolding use_microphone
  use_microphone-Grows = ground arith

  mute-Grows : (b : Bool) → Grows m (mute b m)
  unfolding mute
  mute-Grows b = same (mute b m) refl

  pause-Grows : Grows m (pause m)
  unfolding pause mute
  pause-Grows = same (pause m) refl

  resume-Grows : (b : Bool) → GrowsTo (resume b m)
  unfolding resume mute
  resume-Grows b = ground arith

  play_recording-Grows : (size : ℕ) → GrowsTo (play_recording size m)
  unfolding play_recording
  play_recording-Grows size = ground arith

  remote_track-Grows : Grows m (remote_track m)
  unfolding remote_track
  remote_track-Grows = same (remote_track m) refl

  recording_ended-Grows : Grows m (recording_ended m)
  unfolding recording_ended
  recording_ended-Grows = same (recording_ended m) refl

  continue-Grows : (w : Wait) (o : Outcome) → GrowsTo (continue w o m)
  unfolding continue recording_replaced microphone_replaced mute
  continue-Grows Wait.asking (Outcome.stream t adds) = microphone_given-Grows t adds
  continue-Grows Wait.asking Outcome.rejected = same m refl
  continue-Grows Wait.asking Outcome.resolved = same m refl
  continue-Grows (Wait.accepting b taken) Outcome.rejected = same m refl
  continue-Grows (Wait.accepting b taken) Outcome.resolved = accept_replaced-Grows b taken
  continue-Grows (Wait.accepting b taken) (Outcome.stream t adds) = accept_replaced-Grows b taken
  continue-Grows Wait.opening o = ground arith
  continue-Grows Wait.playing o = ground arith
  continue-Grows Wait.replacing o = ground arith
  continue-Grows Wait.returning o = ground arith

settle-Grows :
    (m : LiveMedia) (c : Option (Wait × List Wait)) (o : Outcome) → Grows m (settle c o m)
settle-Grows m none o = same m m refl
settle-Grows m (some (w, ws)) o = continue-Grows (record m { waits = ws }) w o

step-Grows : (m : LiveMedia) (e : Event) → Grows m (step m e)
unfolding step
step-Grows m Event.prepares = prepare_microphone-Grows m
step-Grows m Event.prepares_receive_only = prepare_receive_only-Grows m
step-Grows m Event.returns = use_microphone-Grows m
step-Grows m Event.pauses = pause-Grows m
step-Grows m Event.closes = close-Grows m m (same m m refl)
step-Grows m (Event.accepts b) = accept-Grows m b
step-Grows m (Event.mutes b) = mute-Grows m b
step-Grows m (Event.resumes b) = resume-Grows m b
step-Grows m (Event.plays size) = play_recording-Grows m size
step-Grows m Event.hears = remote_track-Grows m
step-Grows m Event.connection_lost = close-Grows m m (same m m refl)
step-Grows m Event.microphone_ended =
    if-cases (Grows m) (is_given m.microphone) (λ e. close-Grows m m (same m m refl))
      (λ e. same m m refl)
step-Grows m Event.recording_ends = recording_ended-Grows m
step-Grows m (Event.settles n o) = settle-Grows m (pick n m.waits) o

pub run-Grows : (m : LiveMedia) (es : List Event) → Grows m (run m es)
unfolding run
run-Grows m [] = same m m refl
run-Grows m (e ∷ es) = omega (arith, step-Grows m e, run-Grows (step m e) es)

-- A list that is no longer than an empty one is empty.
pub length-none : (ts us : List Track) → length ts ≤ length us → us ≡ [] → ts ≡ []
length-none [] us h e = refl
length-none (t ∷ ts) us h e = absurd (omega (arith, h, ap length e))
