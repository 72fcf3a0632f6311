-- ===== src/Web/LiveMedia.antt =====
-- The class `LiveMedia` of apps/web/src/lib/liveMedia.ts. A method runs up to its first `await`, which
-- leaves an entry in `waits`; the event `settle` runs what follows it, in any order of the entries.
-- `getUserMedia({ audio, video: false })` returns a stream of at most one track, and a recording is a
-- stream of one. `prepareMicrophone` does not see that another call of it waits for `getUserMedia`: the
-- later stream is then kept in place of the earlier one, whose track goes to `replaced`.
pub mod Kept
pub mod Private
pub mod Replaced
use mathlib.Core.Option
use call_sign.Prelude.{
  ℕ, zero, suc, Option, none, some, Bool, true, false, not, ◌&&◌, ◌||◌, List, [], ◌∷◌, ◌++◌, map,
  leb, length, ltb, nat_beq, if◌then◌else◌, Checked, ok, err, error,
}

-- A MediaStreamTrack: `enabled`, and whether `readyState` is "live".
pub record Track : Type 0 where
  pub enabled : Bool
  pub live : Bool

abbrev pub set_enabled : Bool → Track → Track
set_enabled b t = record t { enabled = b }

-- `track.enabled = false; track.stop();`
abbrev pub silence : Track → Track
silence t = record { enabled = false; live = false }

-- `track.stop();`
abbrev pub stop_track : Track → Track
stop_track t = record t { live = false }

-- What follows an `await`: of `getUserMedia`, of `replaceTrack` in `accept`, of `resume`, `play` and
-- `replaceTrack` in `playRecording`, and of `replaceTrack` in `useMicrophone`. `accept` has taken the
-- track that was kept when it was called, after so many others.
pub data Wait : Type 0 where
  asking : Wait
  accepting : Bool → ℕ → Wait
  opening playing replacing returning : Wait

pub record LiveMedia : Type 0 where
  pub microphone : Option Track
  pub replaced : List Track
  pub sender : Bool
  pub accepted : Bool
  pub muted : Bool
  pub switching : Bool
  pub recording : Option Track
  pub remote_accepted : Bool
  pub receive_only : Bool
  pub closed : Bool
  pub remote : List Track
  pub waits : List Wait

-- A method leaves the object in a state, and returns or throws.
abbrev pub Reply : Type 0
Reply = LiveMedia × Checked

abbrev pub done : LiveMedia → Reply
done m = (m, ok tt)

abbrev pub throws : LiveMedia → Reply
throws m = (m, err (error "MEDIA"))

abbrev pub is_given : Option Track → Bool
is_given none = false
is_given (some t) = true

abbrev pub is_live : Option Track → Bool
is_live none = false
is_live (some t) = t.live

abbrev pub await : Wait → LiveMedia → LiveMedia
await w m = record m { waits = m.waits ++ w ∷ [] }

-- The tracks of an option.
abbrev pub tracks_of : Option Track → List Track
tracks_of none = []
tracks_of (some t) = t ∷ []

-- One of the tracks is changed, in its place.
unfoldable pub change_at : ℕ → (Track → Track) → List Track → List Track
change_at n f [] = []
change_at zero f (t ∷ ts) = f t ∷ ts
change_at (suc n) f (t ∷ ts) = t ∷ change_at n f ts

-- `constructor`
abbrev pub new_media : LiveMedia
new_media = record {
  microphone = none;
  replaced = [];
  sender = false;
  accepted = false;
  muted = true;
  switching = false;
  recording = none;
  remote_accepted = false;
  receive_only = false;
  closed = false;
  remote = [];
  waits = [];
}

unfoldable pub mute : Bool → LiveMedia → LiveMedia
mute value m =
    let enabled = m.accepted && not value && not m.closed in
    record m {
      muted = value;
      microphone = Option.map (set_enabled (enabled && not (is_given m.recording))) m.microphone;
      recording = Option.map (set_enabled enabled) m.recording;
    }

unfoldable pub pause : LiveMedia → LiveMedia
unfolding mute
pause m = record (mute true m) {
  remote_accepted = false;
  remote = map (set_enabled false) m.remote;
}

unfoldable pub resume : Bool → LiveMedia → Reply
unfolding mute
resume muted m =
    if not m.accepted || m.closed
    then throws m
    else done
        (mute muted (record m { remote_accepted = true; remote = map (set_enabled true) m.remote }))

-- `close`; `clearRecording` stops the recording's track.
unfoldable pub close : LiveMedia → LiveMedia
close m = if m.closed then m else record m {
  closed = true;
  accepted = false;
  recording = none;
  microphone = Option.map silence m.microphone;
  remote = map stop_track m.remote;
}

unfoldable pub prepare_microphone : LiveMedia → Reply
prepare_microphone m = if is_given m.microphone || m.closed then throws m else done (await asking m)

-- What follows `getUserMedia`; `adds` is false where `addTrack` throws.
unfoldable pub microphone_given : Option Track → Bool → LiveMedia → Reply
unfolding close
microphone_given stream adds m =
    if m.closed
    then throws m
    else let held = record m {
      microphone = Option.map (set_enabled false) stream;
      replaced = m.replaced ++ tracks_of m.microphone;
    } in
      if not (is_live stream) || not adds
      then throws (close held)
      else done (record held { sender = true })

unfoldable pub prepare_receive_only : LiveMedia → Reply
prepare_receive_only m =
    if m.closed || is_given m.microphone || m.receive_only
    then throws m
    else done (record m { receive_only = true })

unfoldable pub accept : Bool → LiveMedia → Reply
accept start_muted m =
    if m.receive_only && not m.closed
    then done (record m {
      accepted = true;
      remote_accepted = true;
      remote = map (set_enabled true) m.remote;
    })
    else if m.closed || not m.sender || not (is_live m.microphone)
    then throws m
    else if m.accepted
    then done m
    else done (await (accepting start_muted (length m.replaced)) m)

-- What follows `replaceTrack` in `accept`, which is about the track that was taken: the one that is kept,
-- or one that has been replaced since.
unfoldable pub accept_replaced : Bool → ℕ → LiveMedia → Reply
accept_replaced start_muted taken m =
    if m.closed || not (is_live m.microphone)
    then throws m
    else done (record m {
      accepted = true;
      muted = start_muted;
      microphone =
          if leb (length m.replaced) taken
          then Option.map (set_enabled (not start_muted)) m.microphone
          else m.microphone;
      replaced = change_at taken (set_enabled (not start_muted)) m.replaced;
      remote_accepted = if start_muted then m.remote_accepted else true;
      remote = if start_muted then m.remote else map (set_enabled true) m.remote;
    })

abbrev pub max_file_size : ℕ
max_file_size = 20971520

unfoldable pub play_recording : ℕ → LiveMedia → Reply
play_recording size m =
    if m.closed || not m.accepted || not m.sender || m.switching
    then throws m
    else if nat_beq size 0 || ltb max_file_size size
    then throws m
    else done (await opening (record m { switching = true }))

-- `if(this.closed)throw …` between the calls of `playRecording`, and its `catch` and `finally`.
abbrev pub go_on : Wait → LiveMedia → Reply
go_on w m = if m.closed then throws (record m { switching = false }) else done (await w m)

-- What follows `replaceTrack` in `playRecording`.
unfoldable pub recording_replaced : LiveMedia → Reply
unfolding mute
recording_replaced m =
    if m.closed
    then throws (record m { switching = false })
    else done
        (record (mute m.muted
          (record m { recording = some (record { enabled = false; live = true }) })) {
            switching = false;
          })

unfoldable pub use_microphone : LiveMedia → Reply
use_microphone m =
    if m.closed || not m.accepted || not m.sender || m.switching || not (is_live m.microphone)
    then throws m
    else done (await returning (record m { switching = true }))

-- What follows `replaceTrack` in `useMicrophone`.
unfoldable pub microphone_replaced : LiveMedia → Reply
unfolding mute
microphone_replaced m =
    if m.closed
    then throws (record m { switching = false })
    else done (record (mute m.muted (record m { recording = none })) { switching = false })

-- How a promise ends; that of `getUserMedia` brings a stream.
pub data Outcome : Type 0 where
  rejected resolved : Outcome
  stream : Option Track → Bool → Outcome

unfoldable pub continue : Wait → Outcome → LiveMedia → Reply
unfolding microphone_given accept_replaced recording_replaced microphone_replaced
continue asking (stream t adds) m = microphone_given t adds m
continue asking _ m = throws m
continue (accepting b taken) rejected m = throws m
continue (accepting b taken) _ m = accept_replaced b taken m
continue opening rejected m = throws (record m { switching = false })
continue opening _ m = go_on playing m
continue playing rejected m = throws (record m { switching = false })
continue playing _ m = go_on replacing m
continue replacing rejected m = throws (record m { switching = false })
continue replacing _ m = recording_replaced m
continue returning rejected m = throws (record m { switching = false })
continue returning _ m = microphone_replaced m

-- A track of the peer arrives, `ontrack`.
unfoldable pub remote_track : LiveMedia → LiveMedia
remote_track m = record m {
  remote = m.remote ++ record { enabled = m.remote_accepted; live = true } ∷ [];
}

-- The recording comes to its end, `audio.onended`.
unfoldable pub recording_ended : LiveMedia → LiveMedia
recording_ended m = record m { recording = Option.map silence m.recording }

-- The calls of the page, and what the browser reports. The connection is lost, or the microphone is
-- unplugged: both close the call.
pub data Event : Type 0 where
  prepares prepares_receive_only returns pauses closes : Event
  accepts mutes resumes : Bool → Event
  plays : ℕ → Event
  hears connection_lost microphone_ended recording_ends : Event
  settles : ℕ → Outcome → Event

-- The entry at a place of `waits`, and the others.
unfoldable pub pick : ℕ → List Wait → Option (Wait × List Wait)
pick n [] = none
pick zero (w ∷ ws) = some (w, ws)
pick (suc n) (w ∷ ws) = Option.map (λ p. (p.0, w ∷ p.1)) (pick n ws)

abbrev pub settle : Option (Wait × List Wait) → Outcome → LiveMedia → LiveMedia
settle none outcome m = m
settle (some (w, ws)) outcome m = (continue w outcome (record m { waits = ws })).0

unfoldable pub step : LiveMedia → Event → LiveMedia
step m prepares = (prepare_microphone m).0
step m prepares_receive_only = (prepare_receive_only m).0
step m returns = (use_microphone m).0
step m pauses = pause m
step m closes = close m
step m (accepts b) = (accept b m).0
step m (mutes b) = mute b m
step m (resumes b) = (resume b m).0
step m (plays size) = (play_recording size m).0
step m hears = remote_track m
step m connection_lost = close m
step m microphone_ended = if is_given m.microphone then close m else m
step m recording_ends = recording_ended m
step m (settles n outcome) = settle (pick n m.waits) outcome m

unfoldable pub run : LiveMedia → List Event → LiveMedia
run m [] = m
run m (e ∷ es) = run (step m e) es
