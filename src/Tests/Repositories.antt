-- ===== src/Tests/Repositories.antt =====
-- Tests of the theorems on repositories and their manager.
use paper_plane.Prelude.{◌+◌, ◌<◌, ◌≡◌, refl, inr, List, [], ◌∷◌, arith, All, length}
use paper_plane.Prelude.Dict.{lookup}
use paper_plane.Prelude.Exec.{err, duplicate_id}
use paper_plane.Models.{DbMessage}
use paper_plane.Messages.{save}
use paper_plane.Messages.Log.{log}
use paper_plane.Node.{cur_counter, set_counter}
use paper_plane.Index.{index_message}
use paper_plane.Index.Table
use paper_plane.Repository.{insert_message_batch, save_message}
use paper_plane.Repository.Log.{IsLog, insert_message_batch-IsLog}
use paper_plane.Repository.Save.{save_message-IsLog, save_message_gap}
use paper_plane.Repository.Batch.{insert_message_batch_idem}
use paper_plane.Manager.{get_or_create_repository, add_own_message}
use paper_plane.Manager.Clock.{IsClock, add_own_message_later}
use paper_plane.Tests.{decode, sample, two_rows, two_messages}

two_messages-IsLog : IsLog "anna" two_messages
unfolding log cur_counter lookup
two_messages-IsLog = record { numbered = (refl, (refl, tt)); counted = refl }

abbrev overlapping : List DbMessage
overlapping = sample 2 "m2" 5 ∷ sample 3 "m3" 9 ∷ []

insert_message_batch-IsLog_example :
    IsLog "anna" (insert_message_batch decode "anna" overlapping two_messages).1
insert_message_batch-IsLog_example =
    insert_message_batch-IsLog decode "anna" overlapping two_messages two_messages-IsLog
      (unfold log in omega arith)

insert_message_batch_idem_example :
    let once = (insert_message_batch decode "anna" overlapping two_messages).1 in
    (insert_message_batch decode "anna" overlapping once).1 ≡ once
insert_message_batch_idem_example =
    insert_message_batch_idem decode "anna" overlapping two_messages two_messages-IsLog
      (unfold log in omega arith)

save_message-IsLog_example :
    IsLog "anna" (save_message decode "anna" (sample 0 "m3" 9) two_messages).1
unfolding save cur_counter
save_message-IsLog_example =
    save_message-IsLog decode "anna" (sample 0 "m3" 9) two_messages two_messages-IsLog
      (unfold log in omega arith) (inr (_, refl))

save_message_gap_example :
    ((save_message decode "anna" (sample 0 "m2" 9) two_messages).0 ≡ err duplicate_id)
    × (log "anna" (save_message decode "anna" (sample 0 "m2" 9) two_messages).1.db
        ≡ log "anna" two_messages.db)
    × (cur_counter "anna" (save_message decode "anna" (sample 0 "m2" 9) two_messages).1
        ≡ length (log "anna" two_messages.db) + 1)
    × ¬ IsLog "anna" (save_message decode "anna" (sample 0 "m2" 9) two_messages).1
unfolding save cur_counter
save_message_gap_example =
    save_message_gap decode "anna" (sample 0 "m2" 9) two_messages duplicate_id two_messages-IsLog
      (unfold log in omega arith) refl refl refl

two_messages-IsClock : IsClock two_messages
two_messages-IsClock = (omega arith, (omega arith, tt))

add_own_message_later_example :
    All (λ r. r.order < 6) two_rows
    × (6 ≡ 5 + 1)
    × IsClock (add_own_message 0 decode (sample 0 "m3" 0) two_messages).1
unfolding add_own_message get_or_create_repository save_message save cur_counter lookup set_counter
    index_message Table.save
add_own_message_later_example =
    add_own_message_later decode 0 (sample 0 "m3" 0) (sample 0 "m3" 6) two_messages refl
      two_messages-IsClock (omega arith) refl
