-- ===== src/Endpoint/Examples/Line.antt =====
-- The line of waiting packets on concrete queues.
use mac_homa.Common.{zero, suc, ◌≡◌, [], ◌∷◌, refl, arith}
use mac_homa.Endpoint.Loops.Line.{pending, IsFiled}
use mac_homa.Endpoint.Loops.Refine.{
  put, turn, Line, Refines, serve_queues, serve_line, serve_queues-Refines,
}
use mac_homa.Endpoint.Examples.{two_waiting, data_out, control_out}
use mac_homa.Endpoint.Step.{fresh}

-- The two packets that wait, as a line.
abbrev two : Line
two = record { waiting = control_out ∷ data_out ∷ []; dropped = 0 }

two_waiting-IsFiled : IsFiled two_waiting.outbound
two_waiting-IsFiled zero = record {}
two_waiting-IsFiled (suc zero) = record {}
two_waiting-IsFiled (suc (suc zero)) = record {}
two_waiting-IsFiled (suc (suc (suc zero))) = record {}
two_waiting-IsFiled (suc (suc (suc (suc zero)))) = (refl, record {})
two_waiting-IsFiled (suc (suc (suc (suc (suc zero))))) = record {}
two_waiting-IsFiled (suc (suc (suc (suc (suc (suc zero)))))) = record {}
two_waiting-IsFiled (suc (suc (suc (suc (suc (suc (suc zero))))))) = (refl, record {})
two_waiting-IsFiled (suc (suc (suc (suc (suc (suc (suc (suc j)))))))) = record {}

two_waiting-Refines : Refines two_waiting two
unfolding fresh pending
two_waiting-Refines = record {
  eight = refl;
  filed = two_waiting-IsFiled;
  waiting = refl;
  dropped = refl;
}

serve_queues-Refines_example :
    ((serve_queues two_waiting (turn ∷ put control_out ∷ turn ∷ turn ∷ turn ∷ [])).1
      ≡ (serve_line two (turn ∷ put control_out ∷ turn ∷ turn ∷ turn ∷ [])).1)
    × Refines
        (serve_queues two_waiting (turn ∷ put control_out ∷ turn ∷ turn ∷ turn ∷ [])).0
        (serve_line two (turn ∷ put control_out ∷ turn ∷ turn ∷ turn ∷ [])).0
serve_queues-Refines_example =
    serve_queues-Refines (turn ∷ put control_out ∷ turn ∷ turn ∷ turn ∷ []) two_waiting two
      two_waiting-Refines
      (record {}, (omega arith, (record {}, (record {}, (record {}, record {})))))
