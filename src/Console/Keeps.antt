-- ===== src/Console/Keeps.antt =====
-- What printing on the scheduled terminal leaves as it was.
use mathlib.Core.Path.{subst}
use light_os_a_linus_like_os.Common.{
  ℕ, ◌≡◌, refl, ◌∙◌, if◌then◌else◌, Bool-cases, inl, inr, List, [], ◌∷◌,
}
use light_os_a_linus_like_os.Kernel.{TerminalId, same, same→eq, Terminal, Kernel, physical}
use light_os_a_linus_like_os.Console.{video_mem, emit, putc, put_all, clear}
use light_os_a_linus_like_os.Console.Fields.{move, OnlyMoves, OnlyMoves-trans, emit-OnlyMoves}

-- The terminals' cursors may have moved, and memory, the ports and the processor changed; the
-- rest of what the console reads is the same.
pub record Keeps (k k' : Kernel) : Type 0 where
  pub active : k'.active_terminal ≡ k.active_terminal
  pub current : k'.current_terminal ≡ k.current_terminal
  pub table : k'.pg_tab_1 ≡ k.pg_tab_1
  pub terminals : (i : TerminalId) → OnlyMoves (k.terminals i) (k'.terminals i)
  pub stack : k'.esp0 ≡ k.esp0

OnlyMoves-set :
    (id i : TerminalId) (t : Terminal) (k : Kernel)
    → OnlyMoves (k.terminals id) t
    → OnlyMoves (k.terminals i) (if same id i then t else k.terminals i)
OnlyMoves-set id i t k h = elim (Bool-cases (same id i)) [
  | inl e ↦ rw e (subst (λ j. OnlyMoves (k.terminals j) t) (same→eq id i e) h)
  | inr e ↦ rw e refl
]

putc-Keeps : (c : ℕ) (k : Kernel) → Keeps k (putc c k)
unfolding putc
putc-Keeps c k = record {
  active = refl;
  current = refl;
  table = refl;
  terminals = λ i.
      OnlyMoves-set k.active_terminal i
        (emit (physical k video_mem) c (k.terminals k.active_terminal, k.memory)).0 k
        (emit-OnlyMoves (physical k video_mem) c (k.terminals k.active_terminal) k.memory);
  stack = refl;
}

pub Keeps-trans : (a b c : Kernel) → Keeps a b → Keeps b c → Keeps a c
Keeps-trans a b c p q = record {
  active = q.active ∙ p.active;
  current = q.current ∙ p.current;
  table = q.table ∙ p.table;
  terminals = λ i.
      OnlyMoves-trans (a.terminals i) (b.terminals i) (c.terminals i) (p.terminals i)
        (q.terminals i);
  stack = q.stack ∙ p.stack;
}

pub Keeps-same : (k : Kernel) → Keeps k k
Keeps-same k = record {
  active = refl;
  current = refl;
  table = refl;
  terminals = λ i. refl;
  stack = refl;
}

pub put_all-Keeps : (cs : List ℕ) (k : Kernel) → Keeps k (put_all cs k)
unfolding put_all
put_all-Keeps [] k = Keeps-same k
put_all-Keeps (c ∷ cs) k =
    Keeps-trans k (putc c k) (put_all cs (putc c k)) (putc-Keeps c k) (put_all-Keeps cs (putc c k))

pub clear-Keeps : (k : Kernel) → Keeps k (clear k)
unfolding clear
clear-Keeps k = record {
  active = refl;
  current = refl;
  table = refl;
  terminals =
      λ i. OnlyMoves-set k.active_terminal i (move 0 0 (k.terminals k.active_terminal)) k refl;
  stack = refl;
}
