-- ===== src/Tools/Registry/Uniqueness.antt =====
-- Registration is once for each name.
use intellisphere.Common.{
  ◌+◌, String, ◌≡◌, true, false, some, is_ok, is_some, not, arith, str_eq, str_eq_refl,
}
use intellisphere.Common.Dict.{lookup-insert, length-insert}
use intellisphere.Tools.Registry.{ToolRegistration, ToolRegistry, register, get, len}

-- A registration succeeds exactly where its name is free. Then the name finds the tool and the
-- registry has one tool more; otherwise nothing changes. No other name is touched either way.
pub get-register :
    (tool : ToolRegistration) (r : ToolRegistry) (other : String)
    → (is_ok (register tool r).0 ≡ not (is_some (get tool.name r)))
      × (is_ok (register tool r).0 ≡ true → get tool.name (register tool r).1 ≡ some tool)
      × (is_ok (register tool r).0 ≡ true → len (register tool r).1 ≡ len r + 1)
      × (is_ok (register tool r).0 ≡ false → (register tool r).1 ≡ r)
      × (str_eq tool.name other ≡ false → get other (register tool r).1 ≡ get other r)
unfolding register get len
get-register tool r other = (
  ground arith,
  λ h. ground (arith, lookup-insert tool.name tool.name tool r.tools, str_eq_refl tool.name),
  λ h. ground (arith, length-insert tool.name tool r.tools),
  λ h. ground arith,
  λ h. ground (arith, lookup-insert tool.name other tool r.tools),
)
