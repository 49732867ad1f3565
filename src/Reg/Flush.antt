-- ===== src/Reg/Flush.antt =====
-- `flushTLB` of src/mm/mm.cpp, and what a register of src/Reg.cpp does by its name.
use kmd.Base.{ℕ, ◌<◌, ◌≡◌, ◌≢◌, ◌↔◌, ◌∙◌, ◌⊎◌, inl, inr, refl, sym, List, [], ◌∷◌, arith, some}
use kmd.Kernel.{Kernel, ok}
use kmd.Strcmp.{Sign, minus, null, plus, strcmp}
use kmd.Strcmp.Order.{Text, compare_texts, strcmp-compare_texts, strcmp-null_iff}
use kmd.Paging.{flush_tlb}
use kmd.Reg.{Reg, move_to_cr3, set, get, flush_by_name}

-- "cr3".
abbrev pub cr3_text : List ℕ
cr3_text = 99 ∷ 114 ∷ 51 ∷ []

module _ (k : Kernel) (literal fuel : ℕ) (at : Text k.memory literal cr3_text)
    (enough : 3 < fuel) where
  -- The order of the texts of a name and of the literal.
  known :
      (reg : Reg)
      → Text k.memory reg.name cr3_text
      → strcmp fuel k.memory reg.name literal ≡ some null
  known reg text = (strcmp-null_iff fuel text at (omega arith)).1 refl

  -- `flushTLB`, by way of the register that it finds by its name, is a load of the register `cr3` with
  -- what it has.
  pub flush_by_name-flush_tlb :
      (garbage name : ℕ)
      → Text k.memory name cr3_text
      → flush_by_name literal fuel garbage name k ≡ flush_tlb k
  unfolding flush_by_name get set flush_tlb
  flush_by_name-flush_tlb garbage name text =
      let same = known (record { name = name }) text in
      rw (flush_by_name, get, same) (rw (set, same) refl)

  -- Writing a register by its name sets the register `cr3` if the name is "cr3", which is read back
  -- by the same name, and changes nothing if it is another name.
  pub set-get :
      (garbage val : ℕ) (reg : Reg) (cs : List ℕ)
      → Text k.memory reg.name cs
      → ((cs ≡ cr3_text)
          × (set literal fuel reg val k ≡ ok tt (move_to_cr3 val k))
          × (get literal fuel garbage reg (move_to_cr3 val k) ≡ ok val (move_to_cr3 val k)))
        ⊎ ((cs ≢ cr3_text)
            × (set literal fuel reg val k ≡ ok tt k)
            × (get literal fuel garbage reg k ≡ ok garbage k))
  unfolding set get
  set-get garbage val reg cs text =
      by_order (compare_texts cs cr3_text) (strcmp-compare_texts fuel text at (omega arith))
        (strcmp-null_iff fuel text at (omega arith))
    where
      by_order :
          (o : Sign)
          → strcmp fuel k.memory reg.name literal ≡ some o
          → (strcmp fuel k.memory reg.name literal ≡ some null) ↔ (cs ≡ cr3_text)
          → ((cs ≡ cr3_text)
              × (set literal fuel reg val k ≡ ok tt (move_to_cr3 val k))
              × (get literal fuel garbage reg (move_to_cr3 val k) ≡ ok val (move_to_cr3 val k)))
            ⊎ ((cs ≢ cr3_text)
                × (set literal fuel reg val k ≡ ok tt k)
                × (get literal fuel garbage reg k ≡ ok garbage k))
      by_order null run same = inl (same.0 run, rw (set, run) refl, rw (get, run) refl)
      by_order minus run same =
          inr ((λ e. absurd (cc (sym run ∙ same.1 e))), rw (set, run) refl, rw (get, run) refl)
      by_order plus run same =
          inr ((λ e. absurd (cc (sym run ∙ same.1 e))), rw (set, run) refl, rw (get, run) refl)
