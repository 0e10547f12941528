-- ===== src/Tests/Chatting.antt =====
-- Tests of the theorems on the library that the apps call.
use paper_plane.Prelude.{arith, ℕ, ◌≡◌, refl, none, some, List, [], ◌∷◌, ◌++◌}
use paper_plane.Prelude.Dict.{lookup}
use paper_plane.Messages.{save}
use paper_plane.Node.{set_counter, cur_counter}
use paper_plane.Repository.{save_message}
use paper_plane.Manager.{add_own_message, get_or_create_repository}
use paper_plane.Models.{MessagePayload, build, set_text, new}
use paper_plane.Index.{index_message}
use paper_plane.Index.Table
use paper_plane.Platform.Chat.{ChatManager, message_event, run_loop, send_message}
use paper_plane.Platform.Chat.Send.{shown, run_loop-send_message}
use paper_plane.Manager.Running.{Runs}
use paper_plane.Console.{Codec, Input, read_loop, server}
use paper_plane.Console.Session.{server-Runs, server_started}
use paper_plane.AppContext.{max_order}
use paper_plane.Prelude.Exec.{ok}
use paper_plane.Tests.Running.{start, file, context, first_start}
use paper_plane.Tests.{decode, two_messages, anna}
use paper_plane.Tests.Pool.{pool}

abbrev chat : ChatManager
chat = record { node = two_messages; pool = pool; local = anna; delegate = some [] }

-- The one payload that the codec of the tests knows is its encoding of all.
abbrev encode : MessagePayload → List ℕ
encode p = 1 ∷ []

run_loop-send_message_example :
    (run_loop (send_message encode decode 0 "m9" 0 (some "hello") none chat).1).delegate
    ≡ some (([] ++ []) ++ message_event (shown "m9" "hello" chat) ∷ [])
unfolding send_message add_own_message get_or_create_repository save_message save lookup set_counter
    cur_counter build set_text new index_message Table.save
run_loop-send_message_example =
    run_loop-send_message encode decode 0 "m9" "hello" 0 none chat [] refl refl refl

abbrev codec : Codec
codec = record { encode = encode; decode = decode; null = 0 }

abbrev typed : List Input
typed =
    record { line = "write hello world"; uuid = "m9"; now = 0 }
    ∷ record { line = "exit"; uuid = ""; now = 0 }
    ∷ []

running : server start codec "Anna" typed file ≡ ok (read_loop codec typed context)
running = server_started start codec "Anna" typed file context first_start

server-Runs_example : Runs 7 (read_loop codec typed context).node
unfolding max_order
server-Runs_example =
    server-Runs start codec "Anna" typed file (read_loop codec typed context) (λ order small. refl)
      (omega arith, (omega arith, tt)) (omega arith) running
