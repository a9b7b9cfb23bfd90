-- ===== src/Media/Record/Placement.antt =====
-- Where the frames of a recording go (media/record.go, `track.put`).
use xk6_sip.Common.{
  ℕ, zero, suc, ◌+◌, ◌-◌, ◌≤◌, ◌<◌, ◌≡◌, refl, ap, ap₂, not, ◌||◌, subst, sym, ◌∙◌, Bool, true,
  false, ◌&&◌, List, [], ◌∷◌, ◌++◌, arith, length, get_or, set, replicate, if_both, map,
  if◌then◌else◌, leb, ltb, ◌==◌, length-set, length-append, length-replicate, length-map, max,
  Bool-cases, inl, inr,
}
use xk6_sip.Common.Int.{ℤ, pos, negsuc, ◌+ℤ◌, signed32}
use xk6_sip.Common.Bytes.{sub32}
use xk6_sip.Media.Record.{Track, max_record_samples, overwrite, pad, put_at, put, anchor, position}

get_or-set :
    (xs : List ℤ) (i j : ℕ) (v d : ℤ)
    → i < length xs
    → get_or (set xs i v) j d ≡ (if i == j then v else get_or xs j d)
get_or-set [] i j v d h = absurd (omega arith)
get_or-set (x ∷ xs) zero zero v d h = ground arith
get_or-set (x ∷ xs) zero (suc j) v d h = ground arith
get_or-set (x ∷ xs) (suc i) zero v d h = ground arith
get_or-set (x ∷ xs) (suc i) (suc j) v d h = ground (arith, get_or-set xs i j v d)

get_or-cons :
    (x : ℤ) (xs : List ℤ) (n : ℕ) (d : ℤ)
    → get_or (x ∷ xs) n d ≡ (if n == 0 then x else get_or xs (n - 1) d)
get_or-cons x xs zero d = ground arith
get_or-cons x xs (suc n) d =
    let less : suc n - 1 ≡ n = omega arith in ground (arith, ap (λ k. get_or xs k d) less)

length-overwrite : (s xs : List ℤ) (at : ℕ) → length (overwrite s at xs) ≡ length s
unfolding overwrite
length-overwrite s [] at = refl
length-overwrite s (x ∷ xs) at = length-overwrite (set s at x) xs (at + 1) ∙ length-set s at x

-- The loop writes the payload over the samples from `at` on, and no others.
get_or-overwrite :
    (s xs : List ℤ) (at i : ℕ) (d : ℤ)
    → at + length xs ≤ length s
    → get_or (overwrite s at xs) i d
      ≡ (if leb at i && ltb i (at + length xs) then get_or xs (i - at) d else get_or s i d)
unfolding overwrite
get_or-overwrite s [] at i d h = ground arith
get_or-overwrite s (x ∷ xs) at i d h =
    let less : i - (at + 1) ≡ i - at - 1 = omega arith in
    ground (
      arith,
      get_or-overwrite (set s at x) xs (at + 1) i d,
      get_or-set s at i x d,
      get_or-cons x xs (i - at) d,
      length-set s at x,
      ap (λ k. get_or xs k d) less,
    )

get_or-append_silence :
    (s : List ℤ) (n i : ℕ) → get_or (s ++ replicate n (pos 0)) i (pos 0) ≡ get_or s i (pos 0)
get_or-append_silence [] zero i = refl
get_or-append_silence [] (suc n) zero = refl
get_or-append_silence [] (suc n) (suc i) = get_or-append_silence [] n i
get_or-append_silence (x ∷ s) n zero = refl
get_or-append_silence (x ∷ s) n (suc i) = get_or-append_silence s n i

length-pad : (need : ℕ) (s : List ℤ) → length (pad need s) ≡ max need (length s)
unfolding pad
length-pad need s = omega (
  arith,
  length-append s (replicate (need - length s) (pos 0)),
  length-replicate (need - length s) (pos 0),
)

get_or-pad : (need : ℕ) (s : List ℤ) (i : ℕ) → get_or (pad need s) i (pos 0) ≡ get_or s i (pos 0)
unfolding pad
get_or-pad need s i = get_or-append_silence s (need - length s) i

-- What is heard at a position: silence where nothing was stored.
abbrev pub heard_at : Track → ℕ → ℤ
heard_at t i = get_or t.samples i (pos 0)

abbrev pub covers : ℕ → ℕ → ℕ → Bool
covers at n i = leb at i && ltb i (at + n)

-- A frame that fits the recording is heard at its position, all else stays as it was, and the
-- recording grows to the end of the frame if that lies behind its own end.
put_at-heard :
    (t : Track) (at : ℕ) (xs : List ℤ) (i : ℕ)
    → at + length xs ≤ max_record_samples
    → heard_at (put_at t (pos at) xs) i
      ≡ (if covers at (length xs) i then get_or xs (i - at) (pos 0) else heard_at t i)
unfolding put_at
put_at-heard t at xs i h = ground (
  arith,
  get_or-overwrite (pad (at + length xs) t.samples) xs at i (pos 0),
  length-pad (at + length xs) t.samples,
  get_or-pad (at + length xs) t.samples i,
)

-- What `put` keeps of a track that has begun.
record SameAnchor (t t' : Track) : Type 0 where
  init : t'.init ≡ t.init
  ssrc : t'.ssrc ≡ t.ssrc
  ts0 : t'.ts0 ≡ t.ts0
  off0 : t'.off0 ≡ t.off0

put_at-SameAnchor : (t : Track) (z : ℤ) (xs : List ℤ) → SameAnchor t (put_at t z xs)
unfolding put_at
put_at-SameAnchor t (negsuc n) xs = record { init = refl; ssrc = refl; ts0 = refl; off0 = refl }
put_at-SameAnchor t (pos at) xs =
    if_both (SameAnchor t) (ltb max_record_samples (at + length xs))
      (record { init = refl; ssrc = refl; ts0 = refl; off0 = refl })
      (record { init = refl; ssrc = refl; ts0 = refl; off0 = refl })

anchor_same :
    (t : Track) (now ssrc ts : ℕ) → t.init ≡ true → ssrc ≡ t.ssrc → anchor t now ssrc ts ≡ t
unfolding anchor
anchor_same t now ssrc ts i e = ground arith

put_same :
    (t : Track) (now ssrc ts : ℕ) (payload : List ℕ) (table : ℕ → ℤ)
    → t.init ≡ true
    → ssrc ≡ t.ssrc
    → put t now ssrc ts payload table ≡ put_at t (position t ts) (map table payload)
unfolding put
put_same t now ssrc ts payload table i e =
    ap (λ x. put_at x (position x ts) (map table payload)) (anchor_same t now ssrc ts i e)

position_same : (t t' : Track) (ts : ℕ) → SameAnchor t t' → position t' ts ≡ position t ts
unfolding position
position_same t t' ts s = ap₂ (λ o z. pos o +ℤ signed32 (sub32 ts z)) s.off0 s.ts0

-- A frame of a track that has begun, with its position in the recording.
pub record IsPlaced (t : Track) (ssrc ts : ℕ) (payload : List ℕ) (at : ℕ) : Type 0 where
  pub begun : t.init ≡ true
  pub same : ssrc ≡ t.ssrc
  pub here : position t ts ≡ pos at
  pub fits : at + length payload ≤ max_record_samples

-- A frame of the stream that a track has begun with, whose place lies within fifteen minutes, is heard
-- at that place, whatever the clock says, and all that lies outside of it is heard as before.
pub put-heard :
    (t : Track) (now ssrc ts at : ℕ) (payload : List ℕ) (table : ℕ → ℤ) (i : ℕ)
    → IsPlaced t ssrc ts payload at
    → heard_at (put t now ssrc ts payload table) i ≡ (
        if covers at (length payload) i
        then get_or (map table payload) (i - at) (pos 0)
        else heard_at t i)
put-heard t now ssrc ts at payload table i p =
    ap (λ x. heard_at x i)
      (put_same t now ssrc ts payload table p.begun p.same
        ∙ ap (λ z. put_at t z (map table payload)) p.here)
    ∙ (put_at-heard t at (map table payload) i
          (subst (λ n. at + n ≤ max_record_samples) (sym len) p.fits)
        ∙ ap
            (λ n.
              if covers at n i then get_or (map table payload) (i - at) (pos 0) else heard_at t i)
            len)
  where
    len : length (map table payload) ≡ length payload
    len = length-map payload table

-- A frame keeps its place when another frame of the same stream is stored.
put-IsPlaced :
    (t : Track) (now ssrc ts at : ℕ) (payload : List ℕ) (table : ℕ → ℤ) (ts' at' : ℕ)
    (payload' : List ℕ)
    → IsPlaced t ssrc ts payload at
    → IsPlaced t ssrc ts' payload' at'
    → IsPlaced (put t now ssrc ts payload table) ssrc ts' payload' at'
put-IsPlaced t now ssrc ts at payload table ts' at' payload' p q =
    subst (λ x. IsPlaced x ssrc ts' payload' at')
      (sym (put_same t now ssrc ts payload table p.begun p.same))
      (record {
        begun = kept.init ∙ q.begun;
        same = q.same ∙ sym kept.ssrc;
        here = position_same t (put_at t (position t ts) (map table payload)) ts' kept ∙ q.here;
        fits = q.fits;
      })
  where
    kept : SameAnchor t (put_at t (position t ts) (map table payload))
    kept = put_at-SameAnchor t (position t ts) (map table payload)

apart :
    {A : Type 0}
    → (at m at' n i : ℕ) (x y z : A) → at + m ≤ at'
    → (if covers at' n i then y else if covers at m i then x else z)
      ≡ (if covers at m i then x else if covers at' n i then y else z)
apart at m at' n i x y z h = ground arith

-- Two frames of a stream whose track has begun, which have places that do not overlap, are heard
-- the same at every position whichever of them arrives first and at whatever time.
pub put_reordered :
    (t : Track) (ssrc : ℕ) (table : ℕ → ℤ) (ts at : ℕ) (payload : List ℕ) (ts' at' : ℕ)
    (payload' : List ℕ) (now₁ now₂ now₃ now₄ i : ℕ)
    → IsPlaced t ssrc ts payload at
    → IsPlaced t ssrc ts' payload' at'
    → at + length payload ≤ at'
    → heard_at (put (put t now₁ ssrc ts payload table) now₂ ssrc ts' payload' table) i
      ≡ heard_at (put (put t now₃ ssrc ts' payload' table) now₄ ssrc ts payload table) i
put_reordered t ssrc table ts at payload ts' at' payload' now₁ now₂ now₃ now₄ i p q h =
    put-heard (put t now₁ ssrc ts payload table) now₂ ssrc ts' at' payload' table i
      (put-IsPlaced t now₁ ssrc ts at payload table ts' at' payload' p q)
    ∙ (ap
          (λ z.
            if covers at' (length payload') i
            then get_or (map table payload') (i - at') (pos 0)
            else z)
          (put-heard t now₁ ssrc ts at payload table i p)
        ∙ (apart at (length payload) at' (length payload') i
              (get_or (map table payload) (i - at) (pos 0))
              (get_or (map table payload') (i - at') (pos 0)) (heard_at t i) h
            ∙ (ap
                  (λ z.
                    if covers at (length payload) i
                    then get_or (map table payload) (i - at) (pos 0)
                    else z)
                  (sym (put-heard t now₃ ssrc ts' at' payload' table i q))
                ∙ sym (
                    put-heard (put t now₃ ssrc ts' payload' table) now₄ ssrc ts at payload table i
                      (put-IsPlaced t now₃ ssrc ts' at' payload' table ts at payload q p)))))

fits : (at n : ℕ) → ltb max_record_samples (at + n) ≡ false → at + n ≤ max_record_samples
fits at n e = ground arith

put_at_bounded :
    (t : Track) (z : ℤ) (xs : List ℤ)
    → length t.samples ≤ max_record_samples
    → length (put_at t z xs).samples ≤ max_record_samples
unfolding put_at
put_at_bounded t (negsuc n) xs h = h
put_at_bounded t (pos at) xs h = elim (Bool-cases (ltb max_record_samples (at + length xs))) [
  | inl e ↦ rw e h
  | inr e ↦ rw e (
      omega (
        arith,
        fits at (length xs) e,
        length-overwrite (pad (at + length xs) t.samples) xs at,
        length-pad (at + length xs) t.samples,
      ))
]

anchor_bounded :
    (t : Track) (now ssrc ts : ℕ)
    → length t.samples ≤ max_record_samples
    → length (anchor t now ssrc ts).samples ≤ max_record_samples
unfolding anchor
anchor_bounded t now ssrc ts h =
    if_both (λ (x : Track). length x.samples ≤ max_record_samples)
      (not t.init || not (ssrc == t.ssrc)) h h

-- Whatever arrives, and whenever, a track never grows over fifteen minutes of samples.
pub put_bounded :
    (t : Track) (now ssrc ts : ℕ) (payload : List ℕ) (table : ℕ → ℤ)
    → length t.samples ≤ max_record_samples
    → length (put t now ssrc ts payload table).samples ≤ max_record_samples
unfolding put
put_bounded t now ssrc ts payload table h =
    put_at_bounded (anchor t now ssrc ts) (position (anchor t now ssrc ts) ts) (map table payload)
      (anchor_bounded t now ssrc ts h)
