-- ===== src/Tests/Agents.antt =====
-- The quoting of lumenos_sandbox/analysis_agent.py at small texts.
use lumenos_hiper_v.Prelude.{◌≡◌, refl}
use lumenos_hiper_v.Agent.Guest.{escape}

-- The ASCII quote is doubled, and a typographic one, at which PowerShell ends a text too, is not.
escape_test : (escape "it's" ≡ "it''s") × (escape "it’s" ≡ "it’s")
unfolding escape
escape_test = (refl, refl)
