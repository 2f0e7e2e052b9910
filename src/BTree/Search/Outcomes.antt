-- ===== src/BTree/Search/Outcomes.antt =====
-- Where a search in a node of a tree comes out: of a leaf, and of the child that it turns to.
use ds_my_sql.Base.{
  ℕ, zero, suc, ◌-◌, ◌≤◌, ◌<◌, ◌≡◌, inl, inr, refl, subst, Bool, true, false, Option, arith,
  Bool-cases, ◌==◌, ltb, if◌then◌else◌, ℤ, pos,
}
use native.Mathlib.Bridge.{le_prop}
use ds_my_sql.Base.State.{M}
use ds_my_sql.BTree.Pages.{TreePage}
use ds_my_sql.BTree.Index.{children}
use ds_my_sql.BTree.LowerBound.{Splits}
use ds_my_sql.BTree.Search.{not_found}
use ds_my_sql.BTree.Search.Shape.{is_equal, Node, Tree, InTree, Ordered, Guides, Outcome}
use ds_my_sql.BTree.Search.Steps.{Hits, equal_or, turn, before_turn, at_turn}
use ds_my_sql.Rid.{Rid}

module _ {X : Type 0} (v : ℕ → Option TreePage) (len : ℕ) (cmp : Rid → M X ℤ) (c : Rid → ℤ)
    (I : X → Type 0) where
  pub leaf-Outcome :
      (a i : ℕ) (h : Node v len a) (leaf : h.page.leaf ≡ true) (hit : Bool)
      → Ordered v len cmp c I h
      → Splits c h.page.row h.n i
      → Hits cmp c I h.page.row h.n i hit
      → Outcome v len cmp c I zero a (h, leaf) (if hit then h.page.row i else not_found)
  leaf-Outcome a i h leaf hit o s q = elim (Bool-cases hit) [
    | inl e ↦ elim q [ inl y ↦ rw e (inl ((i, y.1, refl), y.2)) | inr y ↦ absurd (ground arith) ]
    | inr e ↦ rw e (
        inr (
          refl,
          λ r' there.
              let (j, lt, at) = there in
              subst (λ z. is_equal (c z) ≡ false) at (equal_or cmp c I h o i hit s q e j lt),
        ))
  ]

  -- The children that the search does not turn to have no row with the key.
  module _ (d a : ℕ) (h : Node v len a) (inner : h.page.leaf ≡ false) (full : 0 < h.n)
      (child : (i : ℕ) → i ≤ h.n → (b : ℕ) × (children h.page i ≡ pos b) × Tree v len d b) where
    abbrev Below : (i : ℕ) → i ≤ h.n → Rid → Type 0
    Below i le r' = InTree v len d (child i le).0 ((child i le).2) r'

    same_child :
        (m j : ℕ) (le' : m ≤ h.n) (le : j ≤ h.n) (r' : Rid) → m ≡ j → Below m le' r' → Below j le r'
    same_child m j le' le r' e there =
        subst (λ z. (l : z ≤ h.n) → Below z l r') e
          (λ l. subst (λ z. Below m z r') (le_prop le' l) there) le

    pub inner-Outcome :
        (i : ℕ) (hit : Bool) (le : turn i hit ≤ h.n) (rid : Rid)
        → Guides v len cmp c I (suc d) a (h, inner, full, child)
        → Splits c h.page.row h.n i
        → Hits cmp c I h.page.row h.n i hit
        → Outcome v len cmp c I d (child (turn i hit) le).0 ((child (turn i hit) le).2) rid
        → Outcome v len cmp c I (suc d) a (h, inner, full, child) rid
    inner-Outcome i hit le rid (o, guides, apart) s q (inl (there, e)) =
        inl ((turn i hit, le, there), e)
    inner-Outcome i hit le rid (o, guides, apart) s q (inr (nf, none_there)) =
        let j = turn i hit in
        inr (
          nf,
          λ r' there.
              let (m, le', below) = there in
              elim (Bool-cases (ltb m j)) [
                | inl lt ↦
                    let low = before_turn cmp c I h o i hit s q (j - 1) (ground arith) in
                    let above =
                      (apart m le' (j - 1) r' (ground arith) below).0 (ground arith) low in
                    ground (arith, above)
                | inr ge ↦ elim (Bool-cases (m == j)) [
                  | inl same ↦ none_there r' (same_child m j le' le r' (ground arith) below)
                  | inr other ↦
                      let high = at_turn cmp c I h o i hit s q (ground arith) in
                      let low = (apart m le' j r' (ground arith) below).1 (ground arith) high in
                      ground (arith, low)
                ]
              ],
        )
