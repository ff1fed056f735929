-- ===== src/Tests/Frames.antt =====
-- Frames of one and of two bytes of payload.
use gor.Prelude.{◌^◌, none, [], ◌∷◌, ◌++◌, ◌≡◌, refl, arith}
use gor.Transport.Frame.{Frame, ok, valid}
use gor.Transport.Frame.RoundTrip.{
  IsFrame, encode, read_frame-encode, append_writer, write_frames, read_frames,
  read_frames-write_frames,
}
use gor.Transport.Frame.Rejects.{Consumed, read_frame-Consumed}

abbrev ping : Frame
ping = record { id = 300; type = 1; payload = 7 ∷ [] }

abbrev pong : Frame
pong = record { id = 2 ^ 63; type = 2; payload = 8 ∷ 9 ∷ [] }

ping-IsFrame : IsFrame ping
unfolding valid
ping-IsFrame = record { kind = refl; fits = omega arith; id64 = omega arith }

pong-IsFrame : IsFrame pong
unfolding valid
pong-IsFrame = record { kind = refl; fits = omega arith; id64 = omega arith }

read_frames-write_frames_example :
    ((write_frames append_writer (ping ∷ pong ∷ []) []).0 ≡ none)
    × (read_frames 2 ((write_frames append_writer (ping ∷ pong ∷ []) []).1 ++ 5 ∷ [])
        ≡ (ok (ping ∷ pong ∷ []), 5 ∷ []))
read_frames-write_frames_example =
    read_frames-write_frames (ping ∷ pong ∷ []) (5 ∷ []) (ping-IsFrame, (pong-IsFrame, tt))

read_frame-Consumed_example : Consumed (encode ping ++ 5 ∷ []) (5 ∷ []) ping
read_frame-Consumed_example =
    read_frame-Consumed (encode ping ++ 5 ∷ []) (read_frame-encode ping (5 ∷ []) ping-IsFrame)
