-- ===== src/Rscdiff/Walked.antt =====
-- client/common/rscdiff/diff.go: the pages of a list, walked to the end.
use octelium.Base.{
  ℕ, zero, suc, ◌+◌, ◌*◌, ◌≤◌, ◌<◌, ◌≡◌, refl, sym, ap, ◌∙◌, true, false, some, List, [], ◌∷◌, ◌++◌,
  Result, ok, err, Error, invalid_arg, length, take, drop, keep, is_empty, ltb, if◌then◌else◌,
  arith, ltb→lt, lt→ltb, ◌⊎◌, inl, inr, Bool-cases, length-drop, take-drop, drop-drop, take_whole,
  keep-append,
}
use octelium.Rscdiff.Items.{Item}
use octelium.Rscdiff.Current.{Listed, is_users, pages_loop, set_current_items}

abbrev pub page_at : ℕ → List Item → Listed
page_at k xs = record {
  items = take 200 (drop (k * 200) xs);
  has_more = some (ltb ((k + 1) * 200) (length xs));
}

-- The pages of 200 items, of which a Cluster answers those up to the number 10000.
pub record IsPaged (list : ℕ → Result Listed) (xs : List Item) : Type 0 where
  pub page : (k : ℕ) → k ≤ 10000 → (k * 200 < length xs) ⊎ (k ≡ 0) → list k ≡ ok (page_at k xs)
  pub last : list 10001 ≡ err invalid_arg

-- What is left at the page `k`.
abbrev left_at : ℕ → List Item → List Item
left_at k xs = drop (k * 200) xs

next_left : (k : ℕ) (xs : List Item) → drop 200 (left_at k xs) ≡ left_at (k + 1) xs
next_left k xs = drop-drop 200 (k * 200) xs ∙ ap (λ n. drop n xs) (omega arith)

append_nil {ℓ} : {A : Type ℓ} (xs : List A) → xs ++ [] ≡ xs
append_nil [] = refl
append_nil (x ∷ xs) = ap (λ ys. x ∷ ys) (append_nil xs)

append_assoc {ℓ} : {A : Type ℓ} (xs ys zs : List A) → (xs ++ ys) ++ zs ≡ xs ++ (ys ++ zs)
append_assoc [] ys zs = refl
append_assoc (x ∷ xs) ys zs = ap (λ t. x ∷ t) (append_assoc xs ys zs)

-- One page and then the rest is all that is left.
keep_next :
    (k : ℕ) (xs : List Item)
    → keep is_users (take 200 (left_at k xs)) ++ keep is_users (left_at (k + 1) xs)
      ≡ keep is_users (left_at k xs)
keep_next k xs =
    ap (λ ys. keep is_users (take 200 (left_at k xs)) ++ keep is_users ys) (sym (next_left k xs))
    ∙ sym (keep-append is_users (take 200 (left_at k xs)) (drop 200 (left_at k xs)))
    ∙ ap (keep is_users) (take-drop 200 (left_at k xs))

step-empty :
    (list : ℕ → Result Listed) (xs : List Item) (fuel k : ℕ) (current : List Item)
    → list k ≡ ok (page_at k xs)
    → take 200 (left_at k xs) ≡ []
    → pages_loop list (suc fuel) k current ≡ some (ok current)
unfolding pages_loop
step-empty list xs fuel k current e nothing = ground (arith, e, nothing)

step-last :
    (list : ℕ → Result Listed) (xs : List Item) (fuel k : ℕ) (current : List Item)
    → list k ≡ ok (page_at k xs)
    → is_empty (take 200 (left_at k xs)) ≡ false
    → ltb ((k + 1) * 200) (length xs) ≡ false
    → pages_loop list (suc fuel) k current
      ≡ some (ok (current ++ keep is_users (take 200 (left_at k xs))))
unfolding pages_loop
step-last list xs fuel k current e full last = ground (arith, e, full, last)

step-more :
    (list : ℕ → Result Listed) (xs : List Item) (fuel k : ℕ) (current : List Item)
    → list k ≡ ok (page_at k xs)
    → is_empty (take 200 (left_at k xs)) ≡ false
    → ltb ((k + 1) * 200) (length xs) ≡ true
    → pages_loop list (suc fuel) k current
      ≡ pages_loop list fuel (k + 1) (current ++ keep is_users (take 200 (left_at k xs)))
unfolding pages_loop
step-more list xs fuel k current e full more = ground (arith, e, full, more)

step-err :
    (list : ℕ → Result Listed) (fuel k : ℕ) (current : List Item) (e : Error)
    → list k ≡ err e
    → pages_loop list (suc fuel) k current ≡ some (err e)
unfolding pages_loop
step-err list fuel k current e fails = ground (arith, fails)

take_full : (xs : List Item) → 1 ≤ length xs → is_empty (take 200 xs) ≡ false
take_full [] h = let bad : ⊥ = omega (arith, h) in elim bad [ ]
take_full (x ∷ xs) h = refl

take_empty : (xs : List Item) → is_empty (take 200 xs) ≡ true → xs ≡ []
take_empty [] e = refl
take_empty (x ∷ xs) e = cc

-- With fuel for the pages that are left the loop adds all items that are left.
pages_loop-all :
    (list : ℕ → Result Listed) (xs : List Item) (fuel k : ℕ) (current : List Item)
    → IsPaged list xs
    → length xs ≤ 2000200
    → length xs ≤ (k + fuel) * 200
    → 1 ≤ fuel
    → (k * 200 < length xs) ⊎ (k ≡ 0)
    → pages_loop list fuel k current ≡ some (ok (current ++ keep is_users (left_at k xs)))
pages_loop-all list xs zero k current h big enough f left =
    let bad : ⊥ = omega (arith, f) in elim bad [ ]
pages_loop-all list xs (suc fuel) k current h big enough f left =
    let near : k ≤ 10000 = elim left [ inl l ↦ omega (arith, l, big) | inr z ↦ omega (arith, z) ] in
    let page = h.page k near left in
    elim (Bool-cases (is_empty (take 200 (left_at k xs)))) [
      | inl nothing ↦
          let e = take_empty (left_at k xs) nothing in
          step-empty list xs fuel k current page (ap (take 200) e)
          ∙ ap (λ ys. some (ok ys))
              (sym (append_nil current) ∙ ap (λ ys. current ++ keep is_users ys) (sym e))
      | inr full ↦ elim (Bool-cases (ltb ((k + 1) * 200) (length xs))) [
        | inl more ↦
            let next : (k + 1) * 200 < length xs = ltb→lt ((k + 1) * 200) (length xs) more in
            step-more list xs fuel k current page full more
            ∙ pages_loop-all list xs fuel (k + 1)
                (current ++ keep is_users (take 200 (left_at k xs))) h big (omega (arith, enough))
                (omega (arith, next, enough)) (inl next)
            ∙ ap (λ ys. some (ok ys))
                (append_assoc current (keep is_users (take 200 (left_at k xs)))
                    (keep is_users (left_at (k + 1) xs))
                  ∙ ap (λ ys. current ++ ys) (keep_next k xs))
        | inr last ↦
            let few : length xs ≤ (k + 1) * 200 = ground (arith, last) in
            let whole : take 200 (left_at k xs) ≡ left_at k xs =
              take_whole 200 (left_at k xs) (omega (arith, length-drop (k * 200) xs, few)) in
            step-last list xs fuel k current page full last
            ∙ ap (λ ys. some (ok (current ++ keep is_users ys))) whole
      ]
    ]

-- Beyond the page 10000 the Cluster refuses, and with it the loop.
pages_loop-over :
    (list : ℕ → Result Listed) (xs : List Item) (fuel k : ℕ) (current : List Item)
    → IsPaged list xs
    → 2000200 < length xs
    → k + fuel ≡ 10002
    → 1 ≤ fuel
    → pages_loop list fuel k current ≡ some (err invalid_arg)
pages_loop-over list xs zero k current h big sum f = let bad : ⊥ = omega (arith, f) in elim bad [ ]
pages_loop-over list xs (suc fuel) k current h big sum f = elim (Bool-cases (ltb k 10001)) [
  | inr at_last ↦
      let k' : k ≡ 10001 = ground (arith, at_last, sum) in
      step-err list fuel k current invalid_arg (ap list k' ∙ h.last)
  | inl before ↦
      let near : k < 10001 = ltb→lt k 10001 before in
      let page = h.page k (omega (arith, near)) (inl (omega (arith, near, big))) in
      let full = take_full (left_at k xs) (omega (arith, length-drop (k * 200) xs, near, big)) in
      step-more list xs fuel k current page full
        (lt→ltb ((k + 1) * 200) (length xs) (omega (arith, near, big)))
      ∙ pages_loop-over list xs fuel (k + 1) (current ++ keep is_users (take 200 (left_at k xs))) h
          big (omega (arith, sum)) (omega (arith, sum, near))
]

-- The loop ends on 10002 pages at most: it has all the items that are not the system's, in their order,
-- or it fails where there are more than 10001 pages.
pub set_current_items-paged :
    (list : ℕ → Result Listed) (xs : List Item)
    → IsPaged list xs
    → set_current_items list 10002
      ≡ some (if ltb 2000200 (length xs) then err invalid_arg else ok (keep is_users xs))
unfolding set_current_items
set_current_items-paged list xs h = elim (Bool-cases (ltb 2000200 (length xs))) [
  | inl over ↦
      pages_loop-over list xs 10002 0 [] h (ltb→lt 2000200 (length xs) over) refl (omega arith)
      ∙ ground (arith, over)
  | inr fits ↦
      pages_loop-all list xs 10002 0 [] h (ground (arith, fits)) (ground (arith, fits))
        (omega arith) (inr refl)
      ∙ ground (arith, fits)
]
