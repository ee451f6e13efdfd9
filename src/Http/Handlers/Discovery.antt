-- ===== src/Http/Handlers/Discovery.antt =====
-- http.rs: the discovery document.
use simple_im.Base.{Option, none, some, List, [], ◌∷◌}
use simple_im.Base.Text.{Text, codes}
use simple_im.Http.Respond.{string, object, Fields, end, field, or_null, Response, respond}

-- The routes of one subject: the key, who may call it, its body, and a hint.
abbrev Routes : Type 0
Routes = List (Text × Text × Option Text × Text)

abbrev route_fields : Routes → Fields
route_fields [] = end
route_fields ((key, auth, body, hint) ∷ more) =
    field key
      (object (
        field (codes "auth") (string auth)
          (field (codes "body") (or_null body) (field (codes "hint") (string hint) end))))
      (route_fields more)

abbrev discovery_routes : Routes
discovery_routes = (codes "GET /", codes "none", none, codes "Returns this discovery document") ∷ []

abbrev skill_routes : Routes
skill_routes =
    (codes "GET /skills/participant", codes "none", none, codes "Participant skill markdown")
    ∷ (
      codes "GET /skills/participant/listen.sh",
      codes "none",
      none,
      codes "Participant listen script",
    )
    ∷ (codes "GET /skills/governor", codes "none", none, codes "Governor skill markdown")
    ∷ (codes "GET /openapi.yaml", codes "none", none, codes "OpenAPI 3.x specification (YAML)")
    ∷ []

abbrev participant_routes : Routes
participant_routes =
    (
      codes "POST /register",
      codes "governor",
      some (codes "{name?}"),
      codes
          "Governor issues a participant token; with {name} atomically rebinds an existing identity. Open during bootstrap (no governor).",
    )
    ∷ (
      codes "POST /listen",
      codes "participant",
      some (codes "{name?}"),
      codes
          "Open SSE stream; optional name makes you reachable in this same call, no separate /announce needed",
    )
    ∷ (
      codes "DELETE /listen",
      codes "participant",
      none,
      codes "Close SSE stream, unbind name (identity + token survive; re-listen to resume)",
    )
    ∷ (
      codes "DELETE /identity",
      codes "participant",
      none,
      codes "Self-service: permanently delete your own identity, token, and grants — no undo",
    )
    ∷ (
      codes "POST /announce",
      codes "participant",
      some (codes "{name}"),
      codes "Claim a name for this token (optional — /listen can do this in one step instead)",
    )
    ∷ (
      codes "GET /participants",
      codes "participant",
      none,
      codes "List all announced participants (15-0040: any valid token, not governor-only)",
    )
    ∷ (
      codes "DELETE /participants/{name}",
      codes "governor",
      none,
      codes "Force-revoke participant by name",
    )
    ∷ (
      codes "GET /participants/{name}/presence",
      codes "participant",
      none,
      codes "Check if participant is online",
    )
    ∷ (
      codes "POST /participants/{name}/presence-scope",
      codes "participant",
      some (codes "{presence_scope}"),
      codes "Set presence visibility (hidden/visible)",
    )
    ∷ []

abbrev message_routes : Routes
message_routes =
    (
      codes "POST /messages/send",
      codes "participant",
      some (codes "{to|to_token, payload, reason?, thread_id?}"),
      codes "Send message to participant",
    )
    ∷ (
      codes "POST /messages/queue/pop",
      codes "participant",
      some (codes "{thread?}"),
      codes "Dequeue one message",
    )
    ∷ (
      codes "POST /messages/dequeue",
      codes "participant",
      some (codes "{thread?}"),
      codes "Alias for POST /messages/queue/pop",
    )
    ∷ (
      codes "DELETE /messages/queue",
      codes "participant",
      some (codes "{thread?}"),
      codes "Drain all queued messages",
    )
    ∷ (codes "GET /messages/pending", codes "participant", none, codes "Count pending messages")
    ∷ (
      codes "GET /messages/latest/id",
      codes "participant",
      none,
      codes "Peek latest message ID (supports long-poll: ?since=N&wait=60)",
    )
    ∷ (
      codes "GET /messages/latest",
      codes "participant",
      none,
      codes "Peek full latest message without consuming",
    )
    ∷ []

abbrev grant_routes : Routes
grant_routes =
    (codes "GET /grants", codes "participant", none, codes "List your active grants")
    ∷ (
      codes "POST /grants/request",
      codes "participant",
      some (codes "{to, reason?, request_id?}"),
      codes "Request a grant to reach a peer",
    )
    ∷ (
      codes "PATCH /grants/requests/{id}",
      codes "participant|governor",
      some (codes "{action, reason?, expiry_secs?}"),
      codes "Approve/deny/hold a grant request",
    )
    ∷ (
      codes "POST /grants/approve",
      codes "governor",
      some (
          codes
            "{identity_a, identity_b, expiry_secs?, direction?, max_messages?, mediation?, conditions?}"),
      codes "Directly approve a grant pair",
    )
    ∷ (
      codes "POST /grants/block",
      codes "governor",
      some (codes "{from_identity, to_name, reason, expires_at?}"),
      codes "Persistently block a sender→recipient pair",
    )
    ∷ (
      codes "POST /grants/unblock",
      codes "governor",
      some (codes "{from_identity, to_name}"),
      codes "Remove a persistent block",
    )
    ∷ (codes "DELETE /grants/{id}", codes "governor", none, codes "Revoke a grant by ID")
    ∷ []

abbrev governor_routes : Routes
governor_routes =
    (
      codes "POST /governors/claim",
      codes "participant",
      some (codes "{expiry_secs?}"),
      codes
          "Claim governorship (may trigger election) — sets the governor flag on your own participant identity, no new credential is issued",
    )
    ∷ (
      codes "POST /governors/elections/{id}",
      codes "participant",
      some (codes "{action}"),
      codes "Vote on a pending election/transfer",
    )
    ∷ (
      codes "POST /governors/transfer",
      codes "governor",
      some (codes "{to?}"),
      codes "Initiate governor transfer",
    )
    ∷ (
      codes "POST /governors/accept-transfer",
      codes "participant",
      some (codes "{transfer_token}"),
      codes "Accept governor transfer (claimer identity derived from the participant bearer)",
    )
    ∷ (
      codes "POST /governors/mediate",
      codes "governor",
      some (codes "{mediation_id, decision, payload?}"),
      codes "Resolve a mediation hold",
    )
    ∷ (codes "GET /governors/events", codes "governor", none, codes "SSE stream of governor events")
    ∷ (
      codes "GET /governors/grants",
      codes "governor",
      none,
      codes "List all grants in the system (supports ?participant=)",
    )
    ∷ []

abbrev attachment_routes : Routes
attachment_routes =
    (
      codes "POST /attachments",
      codes "participant",
      some (codes "raw bytes (query: ?to=&filename=&note=)"),
      codes "Upload file attachment",
    )
    ∷ (codes "GET /attachments/{id}", codes "participant", none, codes "Download attachment by ID")
    ∷ []

abbrev room_routes : Routes
room_routes =
    (
      codes "POST /room/create",
      codes "participant",
      none,
      codes "Create a new room (returns room_id)",
    )
    ∷ (codes "GET /room/create", codes "none", none, codes "Reserved path — returns 400")
    ∷ (
      codes "POST /room/{room_id}/join",
      codes "participant",
      some (codes "{ttl?}"),
      codes "Join a room (idempotent)",
    )
    ∷ (
      codes "GET /room/{room_id}",
      codes "participant",
      none,
      codes "Get room members (must be a member)",
    )
    ∷ (
      codes "POST /room/{room_id}/leave",
      codes "participant",
      none,
      codes "Leave a room (idempotent)",
    )
    ∷ []

abbrev routes : Fields
routes =
    (field (codes "discovery") (object (route_fields discovery_routes)) (
      field (codes "skill") (object (route_fields skill_routes)) (
        field (codes "participant") (object (route_fields participant_routes)) (
          field (codes "message") (object (route_fields message_routes)) (
            field (codes "grant") (object (route_fields grant_routes)) (
              field (codes "governor") (object (route_fields governor_routes)) (
                field (codes "attachment") (object (route_fields attachment_routes))
                  (field (codes "room") (object (route_fields room_routes)) end))))))))

unfoldable pub handle_discovery : Response
handle_discovery = respond 200 (
    field (codes "service") (string (codes "simple-im")) (
      field (codes "version") (string (codes "2")) (
        field (codes "openapi") (string (codes "/openapi.yaml")) (
          field (codes "entry") (string (codes "POST /register")) (
            field (codes "description")
              (string (
                codes
                  "Register with POST /register to receive a token, then POST /listen with that token to open your SSE stream. POST /announce to claim a name. See the participant skill for the full flow."))
              (field (codes "skill") (string (codes "/skills/participant")) (
                field (codes "auth")
                  (string (
                    codes
                      "Bearer <token> in the Authorization header. Token types: listen-token (participant), governor-token (governor). Gate on HTTP status code; errors are {\"error\":CODE,\"message\":...}."))
                  (field (codes "routes") (object routes) end))))))))
