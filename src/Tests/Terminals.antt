-- ===== src/Tests/Terminals.antt =====
-- The theorems on the terminal, at the sample.
use genie_tangle.Terminal.Sequences.Plain.{TextWritten, feed-plain}
use genie_tangle.Terminal.Keys.{key_action, key_down}
use genie_tangle.Terminal.Typing.{ActedOn, key_down-sent, typed_text}
use mathlib.Core.Bool.{true≢false}
use genie_tangle.Terminal.Style.Packed.{attributes-restyled}
use genie_tangle.Terminal.Attr.{attributes}
use genie_tangle.Screen.{at_least_one}
use genie_tangle.Terminal.Valid.Switches.{resize-IsSound}
use genie_tangle.Terminal.Alternate.{leave_alternate-enter, GivenBack}
use genie_tangle.Terminal.Valid.{IsSound}
use genie_tangle.Terminal.Sequences.Params.{params_text, feed-control_sequence, at_csi}
use genie_tangle.Terminal.Write.{and_go_on, feed, step}
use genie_tangle.Terminal.Sequences.Positions.{address, feed-address}
use genie_tangle.Terminal.Answers.{IsServed, sent_or_queued, send-queued}
use genie_tangle.Terminal.Modes.{leave_alternate, enter_alternate}
use genie_tangle.Prelude.{◌>>=◌, ok, Ends, arith, ◌++◌, false, ◌∷◌, [], refl, ◌≡◌, true}
use genie_tangle.Terminal.Csi.{clear_marks, command_of, run_command}
use genie_tangle.Terminal.Valid.Steps.{step-IsSound, SoundResult}
use genie_tangle.Terminal.Style.{packed, IsColored, restyled, plain}
use genie_tangle.Terminal.{resize as resize_of_terminal, send, Terminal, normal, set_state}
use genie_tangle.Tests.Samples.{sample, sample-IsValid, sample_terminal, sample_terminal-IsSound}

step-IsSound_example : Ends SoundResult (step b'x' sample_terminal)
step-IsSound_example = step-IsSound b'x' sample_terminal sample_terminal-IsSound tt

attributes-restyled_example :
    (attributes (1 ∷ 38 ∷ 5 ∷ 9 ∷ 7 ∷ []) (packed plain)
      ≡ packed (restyled (1 ∷ 38 ∷ 5 ∷ 9 ∷ 7 ∷ []) plain))
    × IsColored (restyled (1 ∷ 38 ∷ 5 ∷ 9 ∷ 7 ∷ []) plain)
attributes-restyled_example =
    attributes-restyled (1 ∷ 38 ∷ 5 ∷ 9 ∷ 7 ∷ []) plain
      (record { fg_in = omega arith; bg_in = omega arith })

feed-control_sequence_example :
    feed false (27 ∷ b'[' ∷ (params_text 12 (7 ∷ []) ++ (b'r' ∷ []))) sample_terminal
    ≡ and_go_on (
        run_command
          (command_of b'r')
          (12 ∷ 7 ∷ [])
          (set_state normal (at_csi (12 ∷ 7 ∷ []) 0 sample_terminal))
        >>= λ u. ok (clear_marks u))
feed-control_sequence_example = feed-control_sequence 12 (7 ∷ []) b'r' sample_terminal refl refl

feed-address_example :
    (u : Terminal) × (feed false (address 2 1) sample_terminal ≡ ok (u, false))
    × (u.scr ≡ record sample { x = 1; y = 2 })
    × (u.parser.state ≡ normal)
    × (u.parser.prefix ≡ [])
feed-address_example = feed-address 2 1 sample_terminal refl (omega arith) (omega arith)

leave_alternate-enter_example : GivenBack sample (leave_alternate (enter_alternate sample_terminal))
leave_alternate-enter_example =
    leave_alternate-enter sample_terminal (enter_alternate sample_terminal) refl refl

send-queued_example :
    (sent_or_queued (send (1 ∷ []) sample_terminal) ≡ sent_or_queued sample_terminal ++ (1 ∷ []))
    × IsServed (send (1 ∷ []) sample_terminal)
send-queued_example = send-queued (1 ∷ []) sample_terminal (λ e. absurd (true≢false e))

resize-IsSound_example : IsSound (resize_of_terminal 5 4 sample_terminal)
resize-IsSound_example =
    resize-IsSound 5 4 sample_terminal sample_terminal-IsSound (unfold at_least_one in omega arith)

key_down-sent_example :
    ActedOn sample_terminal
      (typed_text (
        key_action false
          (record {
            key_code = 38;
            shift_key = false;
            ctrl_key = true;
            alt_key = false;
            meta_key = false;
          })
          sample_terminal))
      (key_down false
        (record {
          key_code = 38;
          shift_key = false;
          ctrl_key = true;
          alt_key = false;
          meta_key = false;
        })
        sample_terminal)
key_down-sent_example =
    key_down-sent false
      (record {
        key_code = 38;
        shift_key = false;
        ctrl_key = true;
        alt_key = false;
        meta_key = false;
      })
      sample_terminal sample_terminal-IsSound

feed-plain_example :
    Ends
      (λ r. TextWritten sample (b'h' ∷ b'i' ∷ []) (r.0).scr)
      (feed false (b'h' ∷ b'i' ∷ []) sample_terminal)
feed-plain_example =
    feed-plain (b'h' ∷ b'i' ∷ []) sample_terminal sample-IsValid refl refl
      (omega arith, (omega arith, tt)) (omega arith)
