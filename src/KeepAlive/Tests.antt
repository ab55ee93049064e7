-- ===== src/KeepAlive/Tests.antt =====
-- A run of the keep-alive watch.
use agent_rdp.Base.{◌≡◌, true, false, ◌&&◌, [], ◌∷◌, leb}
use agent_rdp.KeepAlive.{keep_alive_missed_limit}
use agent_rdp.KeepAlive.Verdict.{sent, unwritten, beat, watch, silence, ever_prompt, verdict_lem}

verdict_lem_example :
    (beat
      (watch (sent false false ∷ unwritten ∷ sent false false ∷ sent true true ∷ []))
      (sent false false)).1
    ≡ (ever_prompt
          (sent false false ∷ sent false false ∷ unwritten ∷ sent false false ∷ sent true true ∷ [])
        && leb keep_alive_missed_limit (
            silence (
              sent false false
              ∷ sent false false
              ∷ unwritten
              ∷ sent false false
              ∷ sent true true
              ∷ [])))
verdict_lem_example =
    verdict_lem (sent false false ∷ unwritten ∷ sent false false ∷ sent true true ∷ [])
      (sent false false)
