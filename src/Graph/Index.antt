-- ===== src/Graph/Index.antt =====
-- The successor index of a graph against the dependencies that its nodes list, and the acyclic index.
use vcode.Base.{sym, String, ◌≡◌, ◌↔◌, ◌⊎◌, inl, inr, ⊎_elim, arith, List, Memᴰ, string_eq, subst}
use vcode.Graph.Search.{Successors, nexts}
use vcode.Graph.Search.Correct.{Reaches, here, step, Reaches-trans}
use vcode.Graph.Store.{link, unlink, mem-nexts-link, mem-nexts-unlink}

-- The index holds `v` among the successors of `u` exactly where `v` depends on `u`.
abbrev pub IsIndexOf : Successors → (String → List String) → Type 0
IsIndexOf s deps = (u v : String) → Memᴰ v (nexts u s) ↔ Memᴰ u (deps v)

-- No edge closes a path.
abbrev pub IsAcyclic : Successors → Type 0
IsAcyclic s = (u v : String) → Memᴰ v (nexts u s) → ¬ Reaches s v u

module _ (dep id : String) (s : Successors) where
  -- A path of the linked index either was there, or passes through the new edge.
  Reaches-link :
      {u v : String}
      → Reaches (link dep id s) u v
      → Reaches s u v ⊎ (Reaches s u dep × Reaches s id v)
  Reaches-link here = inl here
  Reaches-link (step {v} {w} p e) = elim ((mem-nexts-link dep id v w s).0 e) [
    | inl old ↦ ⊎_elim (λ q. inl (step q old)) (λ (a, b). inr (a, step b old)) (Reaches-link p)
    | inr (at, to) ↦
        ⊎_elim (λ q. inr (subst (Reaches s _) at q, subst (Reaches s id) (sym to) here))
          (λ (a, b). inr (a, subst (Reaches s id) (sym to) here)) (Reaches-link p)
  ]

  -- A new edge `dep → id` keeps the index acyclic where no path leads from `id` to `dep`.
  pub link-IsAcyclic : IsAcyclic s → ¬ Reaches s id dep → IsAcyclic (link dep id s)
  link-IsAcyclic acyclic free u v e p = elim ((mem-nexts-link dep id u v s).0 e) [
    | inl old ↦
        ⊎_elim (acyclic u v old) (λ (a, b). free (Reaches-trans (step b old) a)) (Reaches-link p)
    | inr (at, to) ↦
        let back =
          λ (q : Reaches s v u). subst (Reaches s id) at (subst (λ x. Reaches s x u) to q) in
        ⊎_elim (λ q. free (back q)) (λ (a, _). free (subst (λ x. Reaches s x dep) to a))
          (Reaches-link p)
  ]

  unlink-Reaches : {u v : String} → Reaches (unlink dep id s) u v → Reaches s u v
  unlink-Reaches here = here
  unlink-Reaches (step {v} {w} p e) =
      step (unlink-Reaches p) ((mem-nexts-unlink dep id v w s).0 e).0

  pub unlink-IsAcyclic : IsAcyclic s → IsAcyclic (unlink dep id s)
  unlink-IsAcyclic acyclic u v e p =
      acyclic u v ((mem-nexts-unlink dep id u v s).0 e).0 (unlink-Reaches p)

-- The index after a link is that of the dependencies with one more, and after an unlink of those
-- with one less.
pub link-IsIndexOf :
    (s : Successors) (deps deps' : String → List String) (from to : String)
    → ((v u : String) → Memᴰ u (deps' v) ↔ (Memᴰ u (deps v) ⊎ ((u ≡ to) × (v ≡ from))))
    → IsIndexOf s deps
    → IsIndexOf (link to from s) deps'
link-IsIndexOf s deps deps' from to more index u v =
    ground (arith, more v u, index u v, mem-nexts-link to from u v s)

pub unlink-IsIndexOf :
    (s : Successors) (deps deps' : String → List String) (from to : String)
    → ((v u : String) → Memᴰ u (deps' v) ↔ (Memᴰ u (deps v) × ¬ ((u ≡ to) × (v ≡ from))))
    → IsIndexOf s deps
    → IsIndexOf (unlink to from s) deps'
unlink-IsIndexOf s deps deps' from to less index u v =
    ground (arith, less v u, index u v, mem-nexts-unlink to from u v s)
