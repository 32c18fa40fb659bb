-- ===== src/Start/Closed.antt =====
-- What the service as `main` starts it does not do: its registry holds the echo tool only.
use intellisphere.Common.{
  ℕ, String, ◌≡◌, refl, ◌∙◌, Bool, false, ◌&&◌, Option, none, some, List, [], ◌∷◌, Result, ok, err,
  leb, is_ok, str_eq, arith, if◌then◌else◌,
}
use intellisphere.Common.Text.{str_len}
use intellisphere.Common.Dict.{lookup, insert}
use intellisphere.Common.Float.{Float}
use intellisphere.Pipeline.Context
use intellisphere.Pipeline.Chain.{PipelineChain, from_config, run_inbound}
use intellisphere.Tools.Registry
use intellisphere.Tools.Registry.{ToolRegistration, ToolRegistry, register}
use intellisphere.Satellite.TrustBudget.{TrustBudget, deduct}
use intellisphere.Satellite.Session.{SatelliteSession, get}
use intellisphere.Satellite.Adjudicator.{
  ToolProposal, AdjudicationResult, adjudicate, max_result_bytes, proposal_message,
}
use intellisphere.Satellite.Adjudicator.Verdict.{in_satellite_zone, adjudicate-accepted}
use intellisphere.Satellite.Ws.{
  SatelliteState, SatelliteMessage, tool_proposal, adjudication_result, ping, pong, error,
  session_terminated, reply_of, adjudicated, propose_to, propose, dispatch, handle_message,
}
use intellisphere.Satellite.Ws.Spending.{acceptance}
use intellisphere.Satellite.Ws.Interleaved.{Arrival, arrive, accepted_for}
use intellisphere.Auth.Jwt.{Claims, Validation}
use intellisphere.Config.Service.{SphereConfig}
use intellisphere.Core.{CoreClient}
use intellisphere.Pipeline.Regex.{RegexEngine}
use intellisphere.Start.{echo_tool, built_in_tools, start}

get-built_in :
    (name : String)
    → Registry.get name built_in_tools
      ≡ (if str_eq "intellisphere_echo" name then some echo_tool else none)
unfolding built_in_tools register Registry.get insert lookup
get-built_in name = refl

no_satellite_tool : (name : String) → in_satellite_zone (Registry.get name built_in_tools) ≡ false
no_satellite_tool name = rw (get-built_in name) (ground arith)

and_never : (a b c : Bool) → b ≡ false → (a && (b && c)) ≡ false
and_never a b c h = ground arith

module _ {F : Type 0} ⦃fl : Float F⦄ where
  never_accepted :
      (id : String) (p : ToolProposal) (chain : PipelineChain) (s : SatelliteSession F)
      → (adjudicate id p built_in_tools chain s).0.accepted ≡ false
  never_accepted id p chain s =
      adjudicate-accepted id p built_in_tools chain s
      ∙ and_never (deduct (fl.nat 1) s.trust_budget).0
          (in_satellite_zone (Registry.get p.tool_name built_in_tools))
          (leb (str_len p.result_payload) max_result_bytes
            && is_ok (run_inbound chain (proposal_message p) (Context.new id s.session_id)).0)
          (no_satellite_tool p.tool_name)

  module _ (parse : String → Result SatelliteMessage String) (chain : PipelineChain) where
    refusal_reply :
        (id : String) (result : AdjudicationResult) (b : TrustBudget F)
        → result.accepted ≡ false
        → acceptance (reply_of parse built_in_tools chain id result b) ≡ 0
    unfolding reply_of
    refusal_reply id result b h = rw h (ground arith)

    refused_session :
        (request_id sid : String) (state : SatelliteState F) (id : String) (p : ToolProposal)
        (session : Option (SatelliteSession F))
        → acceptance (propose_to parse built_in_tools chain request_id sid state id p session).0 ≡ 0
    unfolding propose_to adjudicated
    refused_session request_id sid state id p none = refl
    refused_session request_id sid state id p (some s) =
        refusal_reply id _ _ (never_accepted request_id p chain s)

    refused_dispatch :
        (request_id sid : String) (state : Option (SatelliteState F))
        (m : Result SatelliteMessage String)
        → acceptance (dispatch parse built_in_tools chain request_id sid state m).0 ≡ 0
    unfolding dispatch propose
    refused_dispatch request_id sid state (err e) = refl
    refused_dispatch request_id sid state (ok pong) = refl
    refused_dispatch request_id sid none (ok (tool_proposal id name payload)) = refl
    refused_dispatch request_id sid (some state) (ok (tool_proposal id name payload)) =
        refused_session request_id sid state id _ (get sid state.session_manager)
    refused_dispatch request_id sid state (ok ping) = refl
    refused_dispatch request_id sid state (ok (adjudication_result id accepted reason)) = refl
    refused_dispatch request_id sid state (ok (error message)) = refl
    refused_dispatch request_id sid state (ok (session_terminated reason)) = refl

    refused_arrivals :
        (sid : String) (arrivals : List Arrival) (state : Option (SatelliteState F))
        → accepted_for parse built_in_tools chain sid arrivals state ≡ 0
    unfolding handle_message
    refused_arrivals sid [] state = refl
    refused_arrivals sid ((id, request_id, content) ∷ later) state =
        let now = refused_dispatch request_id id state (parse content) in
        let rest =
          refused_arrivals sid later
            (arrive parse built_in_tools chain (id, request_id, content) state).1 in
        rw now (ground (arith, rest))

  -- The service as it starts, under every configuration, never accepts a proposal of a satellite:
  -- whatever the sessions and the messages of any connections, no acceptance is sent, since none of
  -- its tools is in the Satellite zone.
  pub start-accepts_none :
      {Chunk Status : Type 0} (re : RegexEngine) (lower : String → String)
      (decode : Validation → String → Result Claims String)
      (parse : String → Result SatelliteMessage String) (config : SphereConfig)
      (core : CoreClient Chunk Status) (secret : Option String) (now : ℕ) (sid : String)
      (arrivals : List Arrival) (state : Option (SatelliteState F))
      → accepted_for parse
          (start {F = F} re lower decode config core secret now).tool_registry
          (start {F = F} re lower decode config core secret now).pipeline
          sid
          arrivals
          state
        ≡ 0
  unfolding start
  start-accepts_none re lower decode parse config core secret now sid arrivals state =
      refused_arrivals parse (from_config re lower config.pipeline) sid arrivals state
