-- ===== src/Upstream/Indexes.antt =====
-- The indexes that cluster/common/upstream/upstream.go gives out to connections.
use octelium.Base.{
  ℕ, ◌%◌, ◌≡◌, refl, Bool, true, false, not, ◌||◌, ◌&&◌, List, [], ◌∷◌, ◌++◌, all, Result, ok, err,
  nat_beq, arith, ◌⊎◌, inl, inr, Bool-cases, Result-cases,
}
use octelium.Corev1.Session.{ConnectionType}
use octelium.Upstream.Addresses.{
  ClusterConnInfo, has_index, active_indexes, with_indexes, get_random_ip_index, choose_index,
  remove_index,
}

-- A number whose last byte is not 0.
abbrev pub is_usable : ℕ → Bool
is_usable n = not (nat_beq (n % 256) 0)

abbrev pub are_distinct : List ℕ → Bool
are_distinct [] = true
are_distinct (i ∷ is) = not (has_index is i) && are_distinct is

-- The indexes are usable and no two are the same.
abbrev pub is_sound_list : List ℕ → Bool
is_sound_list is = all is_usable is && are_distinct is

pub record IsSoundInfo (info : ClusterConnInfo) : Type 0 where
  pub wg : is_sound_list info.active_indexes_wg ≡ true
  pub quic : is_sound_list info.active_indexes_quic ≡ true

get_random_ip_index-usable :
    (draws : List (Result ℕ)) (n : ℕ) → get_random_ip_index draws ≡ ok n → is_usable n ≡ true
unfolding get_random_ip_index
get_random_ip_index-usable [] n h = cc
get_random_ip_index-usable (err e ∷ draws) n h = cc
get_random_ip_index-usable (ok m ∷ draws) n h =
    elim (Bool-cases (nat_beq m 0 || nat_beq (m % 256) 0)) [
      | inl skip ↦ get_random_ip_index-usable draws n (ground (arith, skip, h))
      | inr take_it ↦ ground (arith, take_it, h)
    ]

-- The index that the loop ends with is the one it started with, or usable and free.
pub choose_index-free :
    (used : List ℕ) (rounds : List (List (Result ℕ))) (start idx : ℕ)
    → choose_index used rounds start ≡ ok idx
    → (start ≡ idx) ⊎ ((has_index used idx ≡ false) × (is_usable idx ≡ true))
unfolding choose_index
choose_index-free used [] start idx h = inl (ground (arith, h))
choose_index-free used (draws ∷ rounds) start idx h =
    elim (Result-cases (get_random_ip_index draws)) [
      | inr (x, e) ↦ ground (arith, e, h)
      | inl (cur, e) ↦ elim (Bool-cases (has_index used cur)) [
        | inl taken ↦ choose_index-free used rounds start idx (ground (arith, e, taken, h))
        | inr free ↦ elim (choose_index-free used rounds cur idx (ground (arith, e, free, h))) [
          | inl same ↦ inr (
            ground (arith, same, free),
            ground (arith, same, get_random_ip_index-usable draws cur e),
          )
          | inr other ↦ inr other
        ]
      ]
    ]

pub has_index-append :
    (is : List ℕ) (i j : ℕ) → has_index (is ++ (j ∷ [])) i ≡ (has_index is i || nat_beq j i)
has_index-append [] i j = ground arith
has_index-append (k ∷ is) i j = ground (arith, has_index-append is i j)

pub append_sound :
    (is : List ℕ) (i : ℕ)
    → has_index is i ≡ false
    → is_usable i ≡ true
    → is_sound_list is ≡ true
    → is_sound_list (is ++ (i ∷ [])) ≡ true
append_sound [] i free u h = ground (arith, u)
append_sound (k ∷ is) i free u h =
    ground (arith, free, u, h, append_sound is i, has_index-append is k i)

has_index-remove_index :
    (is : List ℕ) (i j : ℕ) → has_index is j ≡ false → has_index (remove_index is i) j ≡ false
unfolding remove_index
has_index-remove_index [] i j h = refl
has_index-remove_index (k ∷ is) i j h = ground (arith, h, has_index-remove_index is i j)

pub remove_index_sound :
    (is : List ℕ) (i : ℕ) → is_sound_list is ≡ true → is_sound_list (remove_index is i) ≡ true
unfolding remove_index
remove_index_sound [] i h = refl
remove_index_sound (k ∷ is) i h =
    ground (arith, h, remove_index_sound is i, has_index-remove_index is i k)

pub active_sound :
    (typ : ConnectionType) (info : ClusterConnInfo)
    → IsSoundInfo info
    → is_sound_list (active_indexes typ info) ≡ true
active_sound ConnectionType.wireguard info h = h.wg
active_sound ConnectionType.quicv0 info h = h.quic
active_sound ConnectionType.type_unknown info h = refl

pub with_sound :
    (typ : ConnectionType) (is : List ℕ) (info : ClusterConnInfo)
    → is_sound_list is ≡ true
    → IsSoundInfo info
    → IsSoundInfo (with_indexes typ is info)
with_sound ConnectionType.wireguard is info s h = record { wg = s; quic = h.quic }
with_sound ConnectionType.quicv0 is info s h = record { wg = h.wg; quic = s }
with_sound ConnectionType.type_unknown is info s h = h
