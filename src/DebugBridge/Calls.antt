-- ===== src/DebugBridge/Calls.antt =====
-- The calls of the bridge to a Node inspector (pkg/debugbridge/node.go).
use bug_it.Base.{
  ℕ, pos, ◌+◌, ◌≡◌, refl, ap, sym, ◌∙◌, ◌⊎◌, inl, inr, Bool, true, false, List, [], ◌∷◌, ◌++◌,
  Option, none, some, if◌then◌else◌, All, subst, arith, eq_ℤ_refl, Bool-cases,
}
use bug_it.Text.{codes, bytes_eq}
use bug_it.Inspector.Json.{
  Fields, field, no_fields, number, object, get_text, get_number, get_object, lookup,
}
use bug_it.DebugBridge.{
  NodeBridge, Answered, ReplyRound, is_reply, reply_of, read_message, wait_reply, call_locked,
  top_of, top_frame, waiting, failed, returned, context_ended, timed_out, receive_failed, top,
}

-- A round in which the loop goes on: a message of another number, in time.
abbrev Passes : ℕ → Bool → Bool → Option Fields → Type 0
Passes id ended late received =
    (ended ≡ false)
    × (late ≡ false)
    × (resp : Fields) × (received ≡ some resp)
    × (is_reply id resp ≡ false)

-- How a round ends the loop: by the end of the context, the deadline, an error, or a message of the number.
abbrev Stops : ℕ → Bool → Bool → Option Fields → Answered → Type 0
Stops id ended late received answer =
    ((ended ≡ true) × (answer ≡ failed context_ended))
    ⊎ (((ended ≡ false) × (late ≡ true) × (answer ≡ failed timed_out))
        ⊎ ((ended ≡ false)
            × (late ≡ false)
            × (((received ≡ none) × (answer ≡ failed receive_failed))
                ⊎ ((resp : Fields) × (received ≡ some resp)
                    × (is_reply id resp ≡ true)
                    × (answer ≡ reply_of resp)))))

abbrev round_of : ℕ → Bool → Bool → Option Fields → Answered → Answered
round_of id ended late received next =
    if ended
    then failed context_ended
    else if late
    then failed timed_out
    else read_message id received next

round-cases :
    (id : ℕ) (ended late : Bool) (received : Option Fields) (next : Answered)
    → (Passes id ended late received × (round_of id ended late received next ≡ next))
      ⊎ Stops id ended late received (round_of id ended late received next)
unfolding read_message
round-cases id true late received next = inr (inl (refl, refl))
round-cases id false true received next = inr (inr (inl (refl, refl, refl)))
round-cases id false false none next = inr (inr (inr (refl, refl, inl (refl, refl))))
round-cases id false false (some resp) next = elim (Bool-cases (is_reply id resp)) [
  | inl e ↦ inr (inr (inr (refl, refl, inr (resp, refl, e, rw e refl))))
  | inr e ↦ inl ((refl, refl, resp, refl, e), rw e refl)
]

abbrev pub IsSkipped : ℕ → ReplyRound → Type 0
IsSkipped id r = Passes id r.has_ended r.is_late r.received

abbrev pub Ends : ℕ → ReplyRound → Answered → Type 0
Ends id r answer = Stops id r.has_ended r.is_late r.received answer

-- What the wait for the answer of a number ends with.
abbrev pub IsAnswered : ℕ → List ReplyRound → Answered → Type 0
IsAnswered id rounds answer =
    (All (IsSkipped id) rounds × (answer ≡ waiting))
    ⊎ ((before after : List ReplyRound) × (r : ReplyRound) × (rounds ≡ before ++ r ∷ after)
        × All (IsSkipped id) before
        × Ends id r answer)

wait_reply-IsAnswered :
    (id : ℕ) (rounds : List ReplyRound) → IsAnswered id rounds (wait_reply id rounds)
unfolding wait_reply
wait_reply-IsAnswered id [] = inl (tt, refl)
wait_reply-IsAnswered id (r ∷ rounds) =
    elim (round-cases id r.has_ended r.is_late r.received (wait_reply id rounds)) [
      | inr stops ↦ inr ([], rounds, r, refl, tt, stops)
      | inl (skip, same) ↦ elim (wait_reply-IsAnswered id rounds) [
        | inl (all, waits) ↦ inl ((skip, all), same ∙ waits)
        | inr (before, after, s, split, all, stops) ↦ inr (
          r ∷ before,
          after,
          s,
          ap (λ t. r ∷ t) split,
          (skip, all),
          subst (Ends id s) (sym same) stops,
        )
      ]
    ]

-- The answer to `Runtime.evaluate`, whose result holds the value one level deeper.
abbrev pub evaluated : ℕ → Fields → Fields
evaluated id remote =
    field (codes "id") (number (pos id))
      (field (codes "result") (object (field (codes "result") (object remote) no_fields)) no_fields)

round-Passes :
    (id : ℕ) (ended late : Bool) (received : Option Fields) (next : Answered)
    → Passes id ended late received
    → round_of id ended late received next ≡ next
unfolding read_message
round-Passes id true late received next (e, l, resp, g, other) = cc
round-Passes id false true received next (e, l, resp, g, other) = cc
round-Passes id false false none next (e, l, resp, g, other) = cc
round-Passes id false false (some m) next (e, l, resp, g, other) =
    let same : is_reply id m ≡ false = ground (arith, g, other) in rw same refl

wait-skips :
    (id : ℕ) (before rounds : List ReplyRound)
    → All (IsSkipped id) before
    → wait_reply id (before ++ rounds) ≡ wait_reply id rounds
unfolding wait_reply
wait-skips id [] rounds h = refl
wait-skips id (r ∷ before) rounds (skip, h) =
    round-Passes id r.has_ended r.is_late r.received (wait_reply id (before ++ rounds)) skip
    ∙ wait-skips id before rounds h

call_locked-wait :
    (n : NodeBridge) (rounds : List ReplyRound)
    → n.is_connected ≡ true
    → (call_locked n true rounds).1 ≡ wait_reply (n.next_id + 1) rounds
unfolding call_locked
call_locked-wait n rounds c = rw c refl

-- A call of a connected bridge whose request is sent skips the messages of other numbers. It waits as long as nothing
-- else comes; the first round that is not skipped ends it: by the end of the context, by the deadline, by an
-- error of the connection, or by the message of its number, whose error or result it returns.
pub call_locked-IsAnswered :
    (n : NodeBridge) (rounds : List ReplyRound)
    → n.is_connected ≡ true
    → IsAnswered (n.next_id + 1) rounds (call_locked n true rounds).1
call_locked-IsAnswered n rounds c =
    subst (IsAnswered (n.next_id + 1) rounds) (sym (call_locked-wait n rounds c))
      (wait_reply-IsAnswered (n.next_id + 1) rounds)

evaluated-is_reply : (id : ℕ) (remote : Fields) → is_reply id (evaluated id remote) ≡ true
unfolding is_reply get_number lookup bytes_eq
evaluated-is_reply id remote = eq_ℤ_refl (pos id)

reply_of-evaluated :
    (id : ℕ) (remote : Fields)
    → reply_of (evaluated id remote) ≡ returned (field (codes "result") (object remote) no_fields)
unfolding reply_of get_object lookup bytes_eq
reply_of-evaluated id remote = refl

abbrev pub arrives : Fields → ReplyRound
arrives resp = record { has_ended = false; is_late = false; received = some resp }

wait-evaluated :
    (id : ℕ) (remote : Fields) (after : List ReplyRound)
    → wait_reply id (arrives (evaluated id remote) ∷ after)
      ≡ returned (field (codes "result") (object remote) no_fields)
unfolding wait_reply read_message
wait-evaluated id remote after = rw (evaluated-is_reply id remote) (reply_of-evaluated id remote)

-- The value is looked up beside the object that has it.
top_of-evaluated :
    (remote : Fields)
    → top_of (returned (field (codes "result") (object remote) no_fields)) ≡ top none
unfolding top_of get_text lookup bytes_eq
top_of-evaluated remote = refl

-- `TopFrame` looks for the value one level too high: where the bridge is connected, the request is sent and, after
-- messages of other numbers in time, the answer arrives in the form of the protocol, with whatever value,
-- `TopFrame` returns no place and no error.
pub top_frame-evaluated :
    (n : NodeBridge) (before after : List ReplyRound) (remote : Fields)
    → n.is_connected ≡ true
    → All (IsSkipped (n.next_id + 1)) before
    → (top_frame n true (before ++ arrives (evaluated (n.next_id + 1) remote) ∷ after)).1 ≡ top none
unfolding top_frame
top_frame-evaluated n before after remote c h =
    ap top_of (
      call_locked-wait n _ c
      ∙ wait-skips (n.next_id + 1) before _ h
      ∙ wait-evaluated (n.next_id + 1) remote after)
    ∙ top_of-evaluated remote
