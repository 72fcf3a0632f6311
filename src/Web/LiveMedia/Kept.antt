-- ===== src/Web/LiveMedia/Kept.antt =====
-- The class `LiveMedia` of apps/web/src/lib/liveMedia.ts: the invariant of its methods, one by one.
use mathlib.Core.Option
use call_sign.Prelude.Tests.{if-cases}
use call_sign.Prelude.{
  ℕ, leb, length, ◌≡◌, refl, Option, none, some, Bool, true, false, not, ◌&&◌, ◌||◌, List, [], ◌∷◌,
  map, arith, All, All-snoc,
}
use call_sign.Web.LiveMedia.{
  Reply, await, Track, set_enabled, stop_track, LiveMedia, Wait, is_given, is_live, mute, pause,
  resume, close, prepare_receive_only, accept_replaced, remote_track, recording_ended,
}

-- `track?.enabled`
abbrev pub is_enabled : Option Track → Bool
is_enabled none = false
is_enabled (some t) = t.enabled

-- The call is accepted, not muted and not closed.
abbrev pub may_speak : LiveMedia → Bool
may_speak m = m.accepted && not m.muted && not m.closed

abbrev pub Heard : Bool → List Track → Type 0
Heard accepted remote = All (λ t. t.enabled ≡ true → accepted ≡ true) remote

-- The microphone is enabled only when the call may be spoken on, a recording only in an accepted call,
-- the other side only once it was accepted, and a closed call holds no live microphone and no recording.
pub record IsPrivate (m : LiveMedia) : Type 0 where
  pub microphone : is_enabled m.microphone ≡ true → may_speak m ≡ true
  pub recording : is_enabled m.recording ≡ true → (m.accepted && not m.closed) ≡ true
  pub heard : m.remote_accepted ≡ true → (m.accepted || m.closed) ≡ true
  pub remote : Heard m.remote_accepted m.remote
  pub ended : m.closed ≡ true → (is_live m.microphone ≡ false) × (m.recording ≡ none)

-- What a method leaves, whether it returns or throws.
abbrev pub Leaves : Reply → Type 0
Leaves r = IsPrivate r.0

Heard-set :
    (b accepted : Bool) (xs : List Track)
    → (b ≡ true → accepted ≡ true)
    → Heard accepted (map (set_enabled b) xs)
Heard-set b accepted [] h = tt
Heard-set b accepted (x ∷ xs) h = (h, Heard-set b accepted xs h)

Heard-stop :
    (accepted : Bool) (xs : List Track) → Heard accepted xs → Heard accepted (map stop_track xs)
Heard-stop accepted [] h = tt
Heard-stop accepted (x ∷ xs) (h, k) = (h, Heard-stop accepted xs k)

kept_is_last :
    (replaced : List Track) (taken : ℕ) → replaced ≡ [] → leb (length replaced) taken ≡ true
kept_is_last replaced taken e = rw e (ground arith)

module _ (m : LiveMedia) (p : IsPrivate m) where
  pub mute-IsPrivate : (b : Bool) → IsPrivate (mute b m)
  unfolding mute
  mute-IsPrivate b = record {
    microphone = λ e. ground (arith, p.microphone);
    recording = λ e. ground (arith, p.recording);
    heard = p.heard;
    remote = p.remote;
    ended = λ e. ground (arith, p.ended e);
  }

  pub pause-IsPrivate : IsPrivate (pause m)
  unfolding pause
  pause-IsPrivate = record {
    microphone = λ e. ground (arith, p.microphone);
    recording = λ e. ground (arith, p.recording);
    heard = λ e. ground arith;
    remote = Heard-set false false m.remote (λ e. e);
    ended = λ e. ground (arith, p.ended e);
  }

  pub resume-IsPrivate : (b : Bool) → IsPrivate (resume b m).0
  unfolding resume
  resume-IsPrivate b =
      if-cases Leaves (not m.accepted || m.closed) (λ e. p)
        (λ e. record {
          microphone = λ h. ground (arith, p.microphone);
          recording = λ h. ground (arith, p.recording);
          heard = λ h. ground arith;
          remote = Heard-set true true m.remote (λ h. h);
          ended = λ h. ground (arith, p.ended h);
        })

  pub close-IsPrivate : IsPrivate (close m)
  unfolding close
  close-IsPrivate =
      if-cases IsPrivate m.closed (λ e. p)
        (λ e. record {
          microphone = λ h. ground arith;
          recording = λ h. ground arith;
          heard = λ h. ground arith;
          remote = Heard-stop m.remote_accepted m.remote p.remote;
          ended = λ h. ground arith;
        })

  pub await-IsPrivate : (w : Wait) → IsPrivate (await w m)
  await-IsPrivate w = record {
    microphone = p.microphone;
    recording = p.recording;
    heard = p.heard;
    remote = p.remote;
    ended = p.ended;
  }

  pub switching-IsPrivate : (b : Bool) → IsPrivate (record m { switching = b })
  switching-IsPrivate b = record {
    microphone = p.microphone;
    recording = p.recording;
    heard = p.heard;
    remote = p.remote;
    ended = p.ended;
  }

  pub waits-IsPrivate : (ws : List Wait) → IsPrivate (record m { waits = ws })
  waits-IsPrivate ws = record {
    microphone = p.microphone;
    recording = p.recording;
    heard = p.heard;
    remote = p.remote;
    ended = p.ended;
  }

  pub receive_only-IsPrivate : IsPrivate (record m { receive_only = true })
  receive_only-IsPrivate = record {
    microphone = p.microphone;
    recording = p.recording;
    heard = p.heard;
    remote = p.remote;
    ended = p.ended;
  }

  pub remote_track-IsPrivate : IsPrivate (remote_track m)
  unfolding remote_track
  remote_track-IsPrivate = record {
    microphone = p.microphone;
    recording = p.recording;
    heard = p.heard;
    remote =
        All-snoc (λ t. t.enabled ≡ true → m.remote_accepted ≡ true) m.remote
          (record { enabled = m.remote_accepted; live = true }) p.remote (λ e. e);
    ended = p.ended;
  }

  pub recording_ended-IsPrivate : IsPrivate (recording_ended m)
  unfolding recording_ended
  recording_ended-IsPrivate = record {
    microphone = p.microphone;
    recording = λ e. ground arith;
    heard = p.heard;
    remote = p.remote;
    ended = λ e. ground (arith, p.ended e);
  }

  pub prepare_receive_only-IsPrivate : IsPrivate (prepare_receive_only m).0
  unfolding prepare_receive_only
  prepare_receive_only-IsPrivate =
      if-cases Leaves (m.closed || is_given m.microphone || m.receive_only) (λ e. p)
        (λ e. receive_only-IsPrivate)

  pub held-IsPrivate :
      (stream : Option Track) (replaced : List Track) (sender : Bool)
      → m.closed ≡ false
      → IsPrivate (record m {
        microphone = Option.map (set_enabled false) stream;
        replaced = replaced;
        sender = sender;
      })
  held-IsPrivate stream replaced sender free = record {
    microphone = λ h. ground arith;
    recording = p.recording;
    heard = p.heard;
    remote = p.remote;
    ended = λ h. cc;
  }

  pub accept_replaced-IsPrivate :
      (b : Bool) (taken : ℕ) → m.replaced ≡ [] → IsPrivate (accept_replaced b taken m).0
  unfolding accept_replaced
  accept_replaced-IsPrivate true taken single =
      if-cases Leaves (m.closed || not (is_live m.microphone)) (λ e. p)
        (λ e. record {
          microphone = λ h. ground (arith, kept_is_last m.replaced taken single);
          recording = λ h. ground (arith, p.recording h);
          heard = λ h. refl;
          remote = p.remote;
          ended = λ h. ground (arith, p.ended h);
        })
  accept_replaced-IsPrivate false taken single =
      if-cases Leaves (m.closed || not (is_live m.microphone)) (λ e. p)
        (λ e. record {
          microphone = λ h. ground (arith, kept_is_last m.replaced taken single);
          recording = λ h. ground arith;
          heard = λ h. refl;
          remote = Heard-set true true m.remote (λ h. h);
          ended = λ h. ground (arith, p.ended h);
        })

  pub listening-IsPrivate :
      m.closed ≡ false
      → IsPrivate (record m {
        accepted = true;
        remote_accepted = true;
        remote = map (set_enabled true) m.remote;
      })
  listening-IsPrivate free = record {
    microphone = λ h. ground (arith, p.microphone h);
    recording = λ h. ground (arith, p.recording h);
    heard = λ h. refl;
    remote = Heard-set true true m.remote (λ h. h);
    ended = λ h. cc;
  }
