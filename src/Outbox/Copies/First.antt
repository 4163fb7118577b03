-- ===== src/Outbox/Copies/First.antt =====
-- `publish_first` and `publish_again` of crates/chatgpt-archive/src/receipt/outbox/publish.rs, and the
-- ways in which a first publication ends.
use ratatoskr_chatgpt.Prelude.{
  ℕ, ◌≤◌, ◌≡◌, ap, sym, ◌∙◌, inl, inr, String, Bool, true, false, none, some, List, [], ◌∷◌, All,
  All-mono, arith, ltb, Bool-cases, Option-cases,
}
use mathlib.Core.Bool.{false≢true}
use ratatoskr_chatgpt.Effect.{Result, ok, err, Exec, pure, ◌>>=◌, ◌>>◌}
use ratatoskr_chatgpt.Effect.Guards.{Guards, Guards-bind, Guards-pure}
use ratatoskr_chatgpt.Receipt.Records.{i64_max}
use ratatoskr_chatgpt.Outbox.Model.{
  Candidate, Reply, acknowledged, refused, Store, State, Env, PublishError, next_turn,
}
use ratatoskr_chatgpt.Outbox.Store.{wait, spend, commit, roll_back}
use ratatoskr_chatgpt.Outbox.Marks.{mark_published, not_null}
use ratatoskr_chatgpt.Outbox.Carry.{remember, forget, sequences_of, note_copy, carried_owner}
use ratatoskr_chatgpt.Outbox.Pump.{
  Outcome, published, skipped, publish_row, publish_reply, publish_again, publish_locked, end_first,
  publish_first, can_lock,
}
use ratatoskr_chatgpt.Outbox.Copies.{
  contains, is_accounted, is_owed, IsSafe, Fits, IsOrderly, keeping_copies,
}
use ratatoskr_chatgpt.Outbox.Copies.Sequences.{
  sequences_of-note_copy, sequences_of-unowed, note_copy-owed,
}
use ratatoskr_chatgpt.Outbox.Copies.Steps.{
  spend-IsOrderly, wait-IsOrderly, wait-IsSafe, Guards-mark_resent,
}
use ratatoskr_chatgpt.Outbox.Copies.Ending.{Ends, Finishes, Covers, same_rows, marked-Finishes}

-- A candidate as the selection gives it: whether its copies are owed is a matter of its row, and
-- what is published again carries no content.
pub record IsChosen (owes : ℕ → Bool) (c : Candidate) : Type 0 where
  pub owed : is_owed c ≡ owes c.id
  pub resent : c.resend ≡ true → is_owed c ≡ false

module _ (env : Env) (owes : ℕ → Bool) (c : Candidate) where
  is_owed-none : carried_owner c ≡ none → is_owed c ≡ false
  unfolding is_owed
  is_owed-none e = ap not_null e

  is_owed-some : (owner : String) → carried_owner c ≡ some owner → is_owed c ≡ true
  unfolding is_owed
  is_owed-some owner e = ap not_null e

  in_range : (sequence : ℕ) → sequence ≤ i64_max → ltb i64_max sequence ≡ false
  in_range sequence h = ground arith

  module _ (chosen : IsChosen owes c) where
    unowed : carried_owner c ≡ none → owes c.id ≡ false
    unowed e = sym chosen.owed ∙ is_owed-none e

    unowed-Covers :
        (w : State) (sequences : List ℕ)
        → carried_owner c ≡ none
        → IsSafe env owes w
        → Covers env owes c sequences w
    unowed-Covers w sequences e safe x h = absurd (
        false≢true
          (sym (ap (contains x) (sequences_of-unowed owes c.id w.carry (unowed e) safe.owed)) ∙ h))

    module _ (subject event_id : String) (body : List ℕ)
        (uuid : not_null (env.parse_uuid event_id) ≡ true) where
      abbrev noted : State → List Reply → ℕ → State
      noted w replies sequence = record w {
        replies = replies;
        copies =
            record {
              candidate = c;
              subject = subject;
              msg_id = event_id;
              body = body;
              sequence = sequence;
            }
            ∷ w.copies;
      }

      noted-IsSafe :
          (w : State) (replies : List Reply) (sequence : ℕ)
          → carried_owner c ≡ none
          → IsSafe env owes w
          → IsSafe env owes (noted w replies sequence)
      noted-IsSafe w replies sequence e safe = record {
        kept = (λ h. absurd (false≢true (sym (unowed e) ∙ h)), safe.kept);
        owed = safe.owed;
      }

      carried-IsSafe :
          (w : State) (replies : List Reply) (sequence : ℕ) (owner : String) (id : ℕ)
          → carried_owner c ≡ some owner
          → IsSafe env owes w
          → IsSafe env owes
              (record (noted w replies sequence) { carry = note_copy c owner id sequence w.carry })
      unfolding is_accounted
      carried-IsSafe w replies sequence owner id e safe = record {
        kept = (
          λ h. ground (arith, sequences_of-note_copy sequence c.id c owner id sequence w.carry),
          All-mono
              (λ copy h o. ground (
                arith,
                h o,
                sequences_of-note_copy copy.sequence copy.candidate.id c owner id sequence w.carry,
              ))
              w.copies safe.kept,
        );
        owed =
            note_copy-owed owes c owner id sequence w.carry (sym chosen.owed ∙ is_owed-some owner e)
              safe.owed;
      }

      abbrev marks : List ℕ → Exec PublishError State Outcome
      marks sequences = mark_published env c.id sequences >> pure published

      remembered-Finishes :
          (w : State) (replies : List Reply) (sequence : ℕ)
          → sequence ≤ i64_max
          → All Fits replies
          → IsOrderly env owes w
          → IsSafe env owes w
          → Finishes env owes c w.store
              ((remember env c event_id sequence >>= marks) (noted w replies sequence))
      unfolding remember pure ◌>>=◌
      remembered-Finishes w replies sequence fits later o safe =
          elim (Option-cases (carried_owner c)) [
            | inl e ↦
                rw (in_range sequence fits, e)
                  (marked-Finishes env owes c (noted w replies sequence) (sequence ∷ [])
                    (record { others = o.others; replies = later })
                    (noted-IsSafe w replies sequence e safe)
                    (unowed-Covers (noted w replies sequence) (sequence ∷ []) e
                      (noted-IsSafe w replies sequence e safe)))
            | inr (owner, e) ↦ elim (Option-cases (env.parse_uuid event_id)) [
              | inl absent ↦ absurd (ground (arith, uuid))
              | inr (id, u) ↦
                  rw (in_range sequence fits, e, u)
                    (marked-Finishes env owes c _
                      (sequences_of c.id (note_copy c owner id sequence w.carry))
                      (record { others = o.others; replies = later })
                      (carried-IsSafe w replies sequence owner id e safe) (λ x h. h))
            ]
          ]

      replied-Finishes :
          (w : State) (replies : List Reply)
          → All Fits replies
          → IsOrderly env owes w
          → IsSafe env owes w
          → Finishes env owes c w.store (
              (publish_reply c subject event_id body replies >>= λ sequence.
              remember env c event_id sequence >>= marks)
                w)
      unfolding publish_reply ◌>>=◌ Ends
      replied-Finishes w [] fit o safe = (o, safe)
      replied-Finishes w (refused fault ∷ replies) fit o safe = (
        record { others = o.others; replies = fit.1 },
        record { kept = safe.kept; owed = safe.owed },
      )
      replied-Finishes w (acknowledged sequence ∷ replies) fit o safe =
          remembered-Finishes w replies sequence fit.0 fit.1 o safe

      locked-Finishes :
          (w : State)
          → IsOrderly env owes w
          → IsSafe env owes w
          → Finishes env owes c w.store (publish_locked env c subject event_id body w)
      unfolding publish_locked publish_row ◌>>=◌ pure Ends spend
      locked-Finishes w o safe = elim (Bool-cases (next_turn w.turns).fault) [
        | inl f ↦ rw (f) (spend-IsOrderly env owes w o, same_rows env owes c w safe)
        | inr f ↦ elim (Bool-cases (can_lock c.id (next_turn w.turns).held w.store.events)) [
          | inl k ↦
              rw (f, k)
                (replied-Finishes (spend w).0 w.replies o.replies (spend-IsOrderly env owes w o)
                  (same_rows env owes c w safe))
          | inr k ↦ rw (f, k) (spend-IsOrderly env owes w o, same_rows env owes c w safe)
        ]
      ]

      ended-rel :
          (before : Store) (r : Result PublishError Outcome) (w : State)
          → Finishes env owes c before (r, w)
          → IsOrderly env owes (end_first c before r w).1
            × IsSafe env owes (end_first c before r w).1
      unfolding end_first ◌>>=◌ commit roll_back forget pure spend Ends
      ended-rel before (ok published) w (o, (back, stays, dropped)) =
          elim (Bool-cases (next_turn w.turns).fault) [
            | inl f ↦ elim (Bool-cases (next_turn w.turns).landed) [
              | inl l ↦ rw (f, l) (spend-IsOrderly env owes w o, same_rows env owes c w stays)
              | inr l ↦
                  rw (f, l)
                    (
                      record {
                        others = (spend-IsOrderly env owes w o).others;
                        replies = o.replies;
                      },
                      same_rows env owes c _ back,
                    )
            ]
            | inr f ↦ rw (f) (
              record { others = (spend-IsOrderly env owes w o).others; replies = o.replies },
              same_rows env owes c _ dropped,
            )
          ]
      ended-rel before (ok skipped) w (o, back) =
          (record { others = o.others; replies = o.replies }, back)
      ended-rel before (err e) w (o, back) =
          (record { others = o.others; replies = o.replies }, back)

      begun-rel :
          (w : State)
          → IsOrderly env owes w
          → IsSafe env owes w
          → let (r, w') = publish_locked env c subject event_id body w in
            IsOrderly env owes (end_first c w.store r w').1
            × IsSafe env owes (end_first c w.store r w').1
      begun-rel w o safe =
          let (r, w') = publish_locked env c subject event_id body w in
          ended-rel w.store r w' (locked-Finishes w o safe)

      pub Guards-publish_first :
          Guards (keeping_copies env owes) (publish_first env c subject event_id body)
      unfolding publish_first keeping_copies wait
      Guards-publish_first = record {
        at = λ w o safe. elim (Bool-cases (next_turn w.turns).fault) [
          | inl f ↦ rw (f) (wait-IsOrderly env owes w o, wait-IsSafe env owes w o safe)
          | inr f ↦
              rw (f)
                (begun-rel (wait w).0 (wait-IsOrderly env owes w o) (wait-IsSafe env owes w o safe))
        ];
      }

      repeated-rel :
          (replies : List Reply) (w : State)
          → owes c.id ≡ false
          → All Fits replies
          → IsOrderly env owes w
          → IsSafe env owes w
          → IsOrderly env owes (publish_reply c subject event_id body replies w).1
            × IsSafe env owes (publish_reply c subject event_id body replies w).1
      unfolding publish_reply
      repeated-rel [] w e fit o safe = (o, safe)
      repeated-rel (refused fault ∷ replies) w e fit o safe = (
        record { others = o.others; replies = fit.1 },
        record { kept = safe.kept; owed = safe.owed },
      )
      repeated-rel (acknowledged sequence ∷ replies) w e fit o safe = (
        record { others = o.others; replies = fit.1 },
        record { kept = (λ h. absurd (false≢true (sym e ∙ h)), safe.kept); owed = safe.owed },
      )

      pub Guards-publish_again :
          is_owed c ≡ false
          → Guards (keeping_copies env owes) (publish_again env c subject event_id body)
      unfolding publish_again publish_row keeping_copies
      Guards-publish_again e =
          Guards-bind _ _
            (record {
              at = λ w o safe. repeated-rel w.replies w (sym chosen.owed ∙ e) o.replies o safe;
            })
            (λ _. Guards-bind _ _ (Guards-mark_resent env owes c.id) (λ _. Guards-pure published))
