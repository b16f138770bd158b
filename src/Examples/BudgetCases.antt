-- ===== src/Examples/BudgetCases.antt =====
-- Budgets at work (budget/).
use fortify.Base.{
  ℕ, ◌≡◌, refl, true, false, Option, none, some, List, [], ◌∷◌, arith, pos, min, inr,
}
use fortify.Ferrors.{Error}
use fortify.Budget.Defs.{Config, Budget, cost_of, execute_lock_free}
use fortify.Budget.Calls
use fortify.Budget.Calls.{Step, pre, tokens, settles, Notices, calls_capped}
use fortify.Budget.Spending.{Ledger, Agrees, Meets, account, alone, execute-Meets}
use fortify.Budget.Window.{Section, begins, ends, Opened}

-- At most 100 tokens and 2 calls; each call costs 60 tokens.
abbrev cfg : Config ℕ
cfg = record {
  max = record { tokens = pos 100; usd_micros = pos 0; calls = pos 2 };
  charge = some (λ r. record { tokens = pos 60; usd_micros = pos 0; calls = pos 0 });
  on_exceeded = true;
  reset_after = pos 0;
}

abbrev fresh : Budget ℕ
fresh = record {
  cfg = cfg;
  tokens = pos 0;
  usd_micros = pos 0;
  calls = pos 0;
  breached = false;
  window_start = 0;
  window_open = false;
  notified = [];
}

abbrev result : ℕ × Option Error
result = (7, none)

abbrev race : List Step
race = pre ∷ pre ∷ tokens cfg.max ∷ pre ∷ settles ∷ []

calls_capped_example : Calls.admitted race fresh ≡ min 2 (Calls.pres race)
calls_capped_example = calls_capped 2 race fresh (omega arith) refl refl (omega arith)

fresh-Notices : Notices fresh
fresh-Notices = record { unset = inr refl; once = omega arith }

abbrev empty : Ledger
empty = record { tokens = 0; usd = 0; calls = 0; closed = false }

fresh-Agrees : Agrees empty fresh
fresh-Agrees = record { tokens = refl; usd = refl; calls = refl; closed = refl }

execute-Meets_example :
    Meets 0 result
      (account cfg.max (cost_of cfg result) empty)
      (execute_lock_free 0 result (alone ℕ) fresh)
unfolding cost_of
execute-Meets_example =
    execute-Meets 0 result empty fresh fresh-Agrees (omega arith) (omega arith) (omega arith)

abbrev spent : Budget ℕ
spent = record fresh { tokens = pos 100; calls = pos 1 }

-- The same ceilings in windows of 1000 ns, the first of which opened at 5000.
abbrev windowed : Budget ℕ
windowed = record fresh {
  cfg = record cfg { reset_after = pos 1000 };
  window_start = 5000;
  window_open = true;
}

windowed-Opened : Opened 2 1000 0 windowed
windowed-Opened = record { cap = refl; span = refl; is_open = refl; counted = refl }

abbrev sections : List (Section ℕ)
sections = begins 5100 ∷ begins 5200 ∷ ends result ∷ begins 5900 ∷ []
