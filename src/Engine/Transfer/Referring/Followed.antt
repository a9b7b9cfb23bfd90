-- ===== src/Engine/Transfer/Referring/Followed.antt =====
-- engine/transfer.go: what the transferor learns from the NOTIFYs of the transferee.
use xk6_sip.Common.{
  ℕ, ◌^◌, ◌<◌, ◌≡◌, refl, ap, sym, subst, ◌∙◌, Bool, true, false, ◌&&◌, ◌||◌, Option, none, some,
  List, [], ◌∷◌, ◌++◌, if◌then◌else◌, ltb, arith,
}
use mathlib.Core.List.{append_assoc}
use xk6_sip.Common.Int.{ℤ, pos, leb_ℤ, ltb_ℤ}
use xk6_sip.Common.Decimal.{
  cut_behind_digits, fields-decimal, decimal-AllDigits, atoi_value-decimal,
}
use xk6_sip.Common.Text.{
  Text, codes, cut, decimal, fields, atoi_value, uint_value, has_prefix, to_lower, trim_space,
  trim_left, is_space, lower,
}
use xk6_sip.Engine.Call.{Call, is_connected, expect_connected}
use xk6_sip.Engine.Transfer.{Progress, progress_update, is_transferred}
use xk6_sip.Engine.Transfer.Referring.{
  second_field, sipfrag_status, notify_progress, on_notify, on_notifies, Transferor, new_progress,
  is_accepted, refer, expect_transferred, notify_refer, failed_frag, outcome_frag, follow_placed,
  follow_refer,
}

trying-on_notify :
    (p : Progress)
    → on_notify (some p) (notify_refer (codes "SIP/2.0 100 Trying") false)
      ≡ some (record p { status = pos 100 })
unfolding on_notify notify_progress progress_update sipfrag_status second_field fields cut
    atoi_value uint_value has_prefix to_lower lower trim_space trim_left is_space notify_refer
trying-on_notify p = refl

or_true : (b : Bool) → (b || true) ≡ true
or_true true = refl
or_true false = refl

final-on_notify :
    (p : Progress) (frag : Text) (status : ℤ)
    → sipfrag_status (frag ++ codes "\r\n") ≡ status
    → on_notify (some p) (notify_refer frag true) ≡ some (progress_update p status true)
unfolding on_notify notify_progress notify_refer has_prefix to_lower lower trim_space trim_left
    is_space
final-on_notify p frag status h =
    rw h (ap (λ b. some (progress_update p status b)) (or_true (leb_ℤ (pos 200) status)))

status_ok : sipfrag_status (codes "SIP/2.0 200 OK" ++ codes "\r\n") ≡ pos 200
unfolding sipfrag_status second_field fields cut atoi_value uint_value is_space
status_ok = refl

status_unavailable :
    sipfrag_status (codes "SIP/2.0 503 Service Unavailable" ++ codes "\r\n") ≡ pos 503
unfolding sipfrag_status second_field fields cut atoi_value uint_value is_space
status_unavailable = refl

line_of :
    (n : ℕ)
    → (cut b'\n' ((codes "SIP/2.0 " ++ (decimal n ++ codes " Transfer failed")) ++ codes "\r\n")).0
      ≡ codes "SIP/2.0 " ++ (decimal n ++ codes " Transfer failed\r")
unfolding cut
line_of n =
    ap (λ (t : Text). codes "SIP/2.0 " ++ (cut b'\n' t).0)
      (append_assoc (decimal n) (codes " Transfer failed") (codes "\r\n"))
    ∙ ap (λ (r : Text × Text × Bool). codes "SIP/2.0 " ++ r.0)
        (cut_behind_digits b'\n' (decimal n) (codes " Transfer failed\r\n") (decimal-AllDigits n)
          refl)

fields_of :
    (n : ℕ)
    → fields (codes "SIP/2.0 " ++ (decimal n ++ codes " Transfer failed\r"))
      ≡ codes "SIP/2.0" ∷ decimal n ∷ codes "Transfer" ∷ codes "failed" ∷ []
unfolding fields is_space
fields_of n =
    ap (λ (ws : List Text). codes "SIP/2.0" ∷ ws) (fields-decimal n (codes "Transfer failed\r"))

status-frag :
    (n : ℕ)
    → n < 2 ^ 63
    → sipfrag_status ((codes "SIP/2.0 " ++ (decimal n ++ codes " Transfer failed")) ++ codes "\r\n")
      ≡ pos n
unfolding sipfrag_status second_field
status-frag n h =
    ap (λ (t : Text). second_field (fields t)) (line_of n)
    ∙ (ap second_field (fields_of n) ∙ atoi_value-decimal n h)

-- The status that the transferee reports of the call it has placed.
abbrev pub reported : Option Call → ℕ
reported none = 503
reported (some nc) =
    if expect_connected nc then 200 else if ltb nc.status 300 then 487 else nc.status

abbrev pub placed_status : Option Call → ℕ
placed_status none = 0
placed_status (some nc) = nc.status

abbrev pub is_reached : Option Call → Bool
is_reached none = false
is_reached (some nc) = expect_connected nc

failed_code : (n : ℕ) → n < 2 ^ 63 → (if ltb n 300 then 487 else n) < 2 ^ 63
failed_code n h = ground arith

frag-status :
    (connects : Bool) (n : ℕ)
    → n < 2 ^ 63
    → sipfrag_status ((if connects then codes "SIP/2.0 200 OK" else failed_frag n) ++ codes "\r\n")
      ≡ pos (if connects then 200 else if ltb n 300 then 487 else n)
unfolding failed_frag
frag-status true n h = status_ok
frag-status false n h = status-frag (if ltb n 300 then 487 else n) (failed_code n h)

outcome_frag-status :
    (nc : Call)
    → nc.status < 2 ^ 63
    → sipfrag_status (outcome_frag nc ++ codes "\r\n") ≡ pos (reported (some nc))
unfolding outcome_frag
outcome_frag-status nc h = frag-status (expect_connected nc) nc.status h

follow_placed-reported :
    (p : Progress) (referred placed : Option Call)
    → placed_status placed < 2 ^ 63
    → on_notifies (some p) (follow_placed referred placed).1
      ≡ some (progress_update p (pos (reported placed)) true)
unfolding follow_placed on_notifies
follow_placed-reported p referred none h =
    final-on_notify p (codes "SIP/2.0 503 Service Unavailable") (pos 503) status_unavailable
follow_placed-reported p referred (some nc) h =
    final-on_notify p (outcome_frag nc) (pos (reported (some nc))) (outcome_frag-status nc h)

code-is_success :
    (connects : Bool) (n : ℕ)
    → is_accepted (some (if connects then 200 else if ltb n 300 then 487 else n)) ≡ connects
code-is_success true n = refl
code-is_success false n = ground arith

reported-is_reached :
    (placed : Option Call) → is_accepted (some (reported placed)) ≡ is_reached placed
reported-is_reached none = refl
reported-is_reached (some nc) = code-is_success (expect_connected nc) nc.status

refer-new_progress :
    (t : Transferor) (to : Text) (status : ℕ)
    → is_connected t.call ≡ true
    → is_accepted (some status) ≡ true
    → (refer t to (some status)).0.xfer ≡ some new_progress
unfolding refer
refer-new_progress t to status c a = rw (c, a) refl

abbrev pub done_of : Option Progress → ℕ
done_of none = 0
done_of (some p) = p.done_closes

-- The transfer of the transferor behind the NOTIFYs, as far as `done` and `ExpectTransferred` go.
abbrev pub Told : Option Progress → Bool → ℕ → Type 0
Told xfer ok closes = (expect_transferred xfer ≡ ok) × (done_of xfer ≡ closes)

pos-is_accepted :
    (n : ℕ) → (leb_ℤ (pos 200) (pos n) && ltb_ℤ (pos n) (pos 300)) ≡ is_accepted (some n)
pos-is_accepted n = ground arith

final-Told :
    (placed : Option Call)
    → Told
        (some
          (progress_update (record new_progress { status = pos 100 }) (pos (reported placed)) true))
        (is_reached placed)
        1
unfolding progress_update expect_transferred is_transferred
final-Told placed = (pos-is_accepted (reported placed) ∙ reported-is_reached placed, refl)

trying-Told : Told (some (record new_progress { status = pos 100 })) false 0
unfolding expect_transferred is_transferred
trying-Told = (refl, refl)

new_progress-Told : Told (some new_progress) false 0
unfolding expect_transferred is_transferred
new_progress-Told = (refl, refl)

follow_refer-reported :
    (referred placed : Option Call)
    → placed_status placed < 2 ^ 63
    → on_notifies (some new_progress) (follow_refer referred placed).1
      ≡ some
          (progress_update (record new_progress { status = pos 100 }) (pos (reported placed)) true)
unfolding follow_refer on_notifies
follow_refer-reported referred placed h =
    ap (λ (x : Option Progress). on_notifies x (follow_placed referred placed).1)
      (trying-on_notify new_progress)
    ∙ follow_placed-reported (record new_progress { status = pos 100 }) referred placed h

-- A REFER in a connected call that is accepted with a 2xx: its `done` stays open while no NOTIFY has
-- come and behind the first one, and the NOTIFYs of the transferee close it exactly once. Then
-- `ExpectTransferred` tells the transferor exactly whether the call that the transferee was to
-- place was placed and got through; its status is a number that an int holds.
pub refer-follow_refer :
    (t : Transferor) (to : Text) (status : ℕ) (referred placed : Option Call)
    → is_connected t.call ≡ true
    → is_accepted (some status) ≡ true
    → placed_status placed < 2 ^ 63
    → Told (refer t to (some status)).0.xfer false 0
      × (Told
            (on_notify
              (refer t to (some status)).0.xfer
              (notify_refer (codes "SIP/2.0 100 Trying") false))
            false
            0
          × Told
              (on_notifies (refer t to (some status)).0.xfer (follow_refer referred placed).1)
              (is_reached placed)
              1)
refer-follow_refer t to status referred placed c a h =
    subst
      (λ (x : Option Progress).
        Told x false 0
        × (Told (on_notify x (notify_refer (codes "SIP/2.0 100 Trying") false)) false 0
            × Told (on_notifies x (follow_refer referred placed).1) (is_reached placed) 1))
      (sym (refer-new_progress t to status c a))
      (
        new_progress-Told,
        (
          subst (λ (x : Option Progress). Told x false 0) (sym (trying-on_notify new_progress))
              trying-Told,
          subst (λ (x : Option Progress). Told x (is_reached placed) 1)
              (sym (follow_refer-reported referred placed h)) (final-Told placed),
        ),
      )
