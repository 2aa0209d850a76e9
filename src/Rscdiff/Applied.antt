-- ===== src/Rscdiff/Applied.antt =====
-- client/common/rscdiff/diff.go: what a run calls, and when it has nothing to do.
use mathlib.Core.Path.{subst⁻¹}
use octelium.Base.{
  ℕ, zero, suc, ◌+◌, ◌≡◌, refl, ◌∙◌, Bool, true, false, not, ◌&&◌, some, List, [], ◌∷◌, ◌++◌,
  Result, ok, err, Error, all, keep, arith, inl, inr, Bool-cases, Option-cases, Result-cases,
  all-append,
}
use octelium.Rscdiff.Items.{
  Item, DiffCtl, is_item_in_list, get_in_list, get_diff_create, get_diff_update, get_diff_delete,
}
use octelium.Rscdiff.Current.{Listed, is_users, pages_loop, set_current_items}
use octelium.Rscdiff.Run.{
  Client, DiffCtlResponse, is_user_error, is_not_found, each, delete_loop, make_changes, run,
}

all-keep : (p : Item → Bool) (xs : List Item) → all p (keep p xs) ≡ true
all-keep p [] = refl
all-keep p (x ∷ xs) = ground (arith, all-keep p xs)

-- The items that are collected are not the system's, whatever the Cluster answers.
pages_loop-users :
    (list : ℕ → Result Listed) (fuel page : ℕ) (current ys : List Item)
    → all is_users current ≡ true
    → pages_loop list fuel page current ≡ some (ok ys)
    → all is_users ys ≡ true
unfolding pages_loop
pages_loop-users list zero page current ys a e = cc
pages_loop-users list (suc fuel) page current ys a e = elim (Result-cases (list page)) [
  | inr (w, fails) ↦ ground (arith, fails, e)
  | inl (res, there) ↦
      let next : all is_users (current ++ keep is_users res.items) ≡ true =
        all-append is_users current (keep is_users res.items)
        ∙ ground (arith, a, all-keep is_users res.items) in
      let ih = pages_loop-users list fuel (page + 1) (current ++ keep is_users res.items) ys next in
      ground (arith, there, e, a, next, ih)
]

pub is_item_in_list-get :
    (c : DiffCtl) (xs : List Item) (cur y : Item)
    → get_in_list c xs cur ≡ some y
    → is_item_in_list c xs cur ≡ true
is_item_in_list-get c [] cur y e = cc
is_item_in_list-get c (x ∷ xs) cur y e = ground (arith, e, is_item_in_list-get c xs cur y)

all-get_diff_create :
    (c : DiffCtl) (desired current : List Item)
    → all (λ x. not (is_item_in_list c current x)) (get_diff_create c desired current) ≡ true
all-get_diff_create c [] current = refl
all-get_diff_create c (x ∷ xs) current = ground (arith, all-get_diff_create c xs current)

all-get_diff_update :
    (c : DiffCtl) (desired current : List Item)
    → all (is_item_in_list c current) (get_diff_update c desired current) ≡ true
all-get_diff_update c [] current = refl
all-get_diff_update c (x ∷ xs) current = elim (Option-cases (get_in_list c current x)) [
  | inl nothing ↦ ground (arith, nothing, all-get_diff_update c xs current)
  | inr (y, found) ↦
      ground
        (arith, found, is_item_in_list-get c current x y found, all-get_diff_update c xs current)
]

-- An item that may be deleted: it is not the system's, and it is not desired.
abbrev pub is_surplus : DiffCtl → List Item → Item → Bool
is_surplus c desired x = is_users x && not (is_item_in_list c desired x)

all-get_diff_delete :
    (c : DiffCtl) (desired current : List Item)
    → all is_users current ≡ true
    → all (is_surplus c desired) (get_diff_delete c desired current) ≡ true
all-get_diff_delete c desired [] u = refl
all-get_diff_delete c desired (x ∷ xs) u = ground (arith, u, all-get_diff_delete c desired xs)

module _ {S : Type 0} (K : S → Type 0) where
  move : {R : Type 0} (a b : R × S) → a ≡ b → K b.1 → K a.1
  move a b e k = subst⁻¹ (λ g. K g.1) e k

  each-keeps :
      (p : Item → Bool) (skips : Error → Bool) (call : Item → S → Result (Unit {0}) × S)
      (xs : List Item) (n : ℕ) (s : S)
      → ((x : Item) (t : S) → p x ≡ true → K t → K (call x t).1)
      → all p xs ≡ true
      → K s
      → K (each skips call xs n s).1
  unfolding each
  each-keeps p skips call [] n s h a k = k
  each-keeps p skips call (x ∷ xs) n s h a k =
      let after = h x s (ground (arith, a)) k in
      let rest : all p xs ≡ true = ground (arith, a) in
      elim (Result-cases (call x s).0) [
        | inl (u, went) ↦
            move (each skips call (x ∷ xs) n s) (each skips call xs (n + 1) (call x s).1)
              (ground (arith, went)) (each-keeps p skips call xs (n + 1) (call x s).1 h rest after)
        | inr (e, fails) ↦ elim (Bool-cases (skips e)) [
          | inl skipped ↦
              move (each skips call (x ∷ xs) n s) (each skips call xs n (call x s).1)
                (ground (arith, fails, skipped))
                (each-keeps p skips call xs n (call x s).1 h rest after)
          | inr ends ↦
              move (each skips call (x ∷ xs) n s) (err e, (call x s).1)
                (ground (arith, fails, ends)) after
        ]
      ]

  -- The calls that `current` and `desired` allow keep `K`.
  pub record CallsKeep (c : DiffCtl) (client : Client S) (desired current : List Item)
      : Type 0 where
    pub create :
        (x : Item) (t : S) → is_item_in_list c current x ≡ false → K t → K (client.create x t).1
    pub update :
        (x : Item) (t : S) → is_item_in_list c current x ≡ true → K t → K (client.update x t).1
    pub delete :
        (x : Item) (t : S)
        → c.deletes ≡ true
        → x.is_system ≡ false
        → is_item_in_list c desired x ≡ false
        → K t
        → K (client.delete x.uid t).1

  delete_loop-keeps :
      (c : DiffCtl) (client : Client S) (desired current : List Item) (xs : List Item) (b : Bool)
      (s : S)
      → (b ≡ true → c.deletes ≡ true)
      → CallsKeep c client desired current
      → all (is_surplus c desired) xs ≡ true
      → K s
      → K (delete_loop b client xs s).1
  delete_loop-keeps c client desired current xs false s on h a k = k
  delete_loop-keeps c client desired current xs true s on h a k =
      each-keeps (is_surplus c desired) is_not_found (λ x. client.delete x.uid) xs 0 s
        (λ x t p kt. h.delete x t (on refl) (ground (arith, p)) (ground (arith, p)) kt) a k

  make_changes-keeps :
      (c : DiffCtl) (client : Client S) (desired current : List Item) (s : S)
      → CallsKeep c client desired current
      → all is_users current ≡ true
      → K s
      → K
          (make_changes c.deletes client
            (get_diff_create c desired current)
            (get_diff_update c desired current)
            (get_diff_delete c desired current)
            s).1
  unfolding make_changes
  make_changes-keeps c client desired current s h users k =
      let creates = get_diff_create c desired current in
      let updates = get_diff_update c desired current in
      let removes = get_diff_delete c desired current in
      let got = make_changes c.deletes client creates updates removes s in
      let a = each is_user_error client.create creates 0 s in
      let ka : K a.1 =
        each-keeps (λ x. not (is_item_in_list c current x)) is_user_error client.create creates 0 s
          (λ x t p kt. h.create x t (ground (arith, p)) kt) (all-get_diff_create c desired current)
          k in
      elim (Result-cases a.0) [
        | inr (e, fails) ↦ move got (err e, a.1) (ground (arith, fails)) ka
        | inl (m, went) ↦
            let b = each is_user_error client.update updates 0 a.1 in
            let kb : K b.1 =
              each-keeps (is_item_in_list c current) is_user_error client.update updates 0 a.1
                h.update (all-get_diff_update c desired current) ka in
            elim (Result-cases b.0) [
              | inr (e, fails) ↦ move got (err e, b.1) (ground (arith, went, fails)) kb
              | inl (n, went') ↦
                  let d = delete_loop c.deletes client removes b.1 in
                  let kd : K d.1 =
                    delete_loop-keeps c client desired current removes c.deletes b.1 (λ e. e) h
                      (all-get_diff_delete c desired current users) kb in
                  elim (Result-cases d.0) [
                    | inr (e, fails) ↦ move got (err e, d.1) (ground (arith, went, went', fails)) kd
                    | inl (r, went'') ↦
                        move got
                          (
                            ok (record { count_created = m; count_updated = n; count_deleted = r }),
                            d.1,
                          )
                          (ground (arith, went, went', went'')) kd
                  ]
            ]
      ]

  -- A run of diffCtl that does not run out of fuel keeps whatever these calls keep, whichever of
  -- them fails: the creation of items whose names the Cluster was found to lack, the update of items
  -- whose names it was found to have, and, only where deletion is asked for, the deletion of items
  -- that are neither the system's nor desired.
  pub run-keeps :
      (c : DiffCtl) (client : Client S) (desired : List Item) (fuel : ℕ) (s : S)
      (got : Result DiffCtlResponse × S)
      → ((current : List Item)
          → set_current_items (client.list s) fuel ≡ some (ok current)
          → CallsKeep c client desired current)
      → run c client desired fuel s ≡ some got
      → K s
      → K got.1
  unfolding run set_current_items
  run-keeps c client desired fuel s got h e k =
      elim (Option-cases (set_current_items (client.list s) fuel)) [
        | inl out ↦ ground (arith, e, out)
        | inr (err w, fails) ↦ move got (err w, s) (ground (arith, e, fails)) k
        | inr (ok current, there) ↦
            move got
              (make_changes c.deletes client (get_diff_create c desired current)
                (get_diff_update c desired current) (get_diff_delete c desired current) s)
              (ground (arith, e, there))
              (make_changes-keeps c client desired current s (h current there)
                (pages_loop-users (client.list s) fuel 0 [] current refl there) k)
      ]
