-- ===== src/Gateway/Connection/Tests.antt =====
-- One WebSocket connection, on descriptor 5.
use paid_server.Base.{Text, text, Bool, true, List, [], ◌∷◌, ◌⊎◌}
use paid_server.Gateway.Handshake.Upgrade.{upgrade_text}
use paid_server.Gateway.Connection.{WsServer, enter, handle_web_socket_client}
use paid_server.Gateway.Connection.Ends.{
  IsGivenUp, IsWelcomed, IsEnded, handle_web_socket_client-IsEnded,
}

abbrev page_reads : List Text
page_reads = upgrade_text (text "PS1") ((text "Sec-WebSocket-Key", text "a2V5") ∷ []) ∷ [] ∷ []

-- An older connection of the same session is open.
abbrev one_open : WsServer
one_open = record {
  registry = record {
    session_to_fd = (text "PS1", 3) ∷ [];
    fd_to_session = (3, text "PS1") ∷ [];
    closed = [];
  };
  active = 1;
  frames = [];
}

abbrev two_rounds : List Bool
two_rounds = true ∷ true ∷ []

handle_web_socket_client-IsEnded_example :
    IsGivenUp 5
      (enter one_open)
      (handle_web_socket_client
        (λ s. 1 ∷ [])
        (λ fd bytes. true)
        5
        page_reads
        two_rounds
        (λ s. s)
        (λ s. s)
        one_open).0
    ⊎ ((session : Text) × (b : WsServer) × IsWelcomed session 5 (enter one_open) b
        × IsEnded 5 b
            (handle_web_socket_client
              (λ s. 1 ∷ [])
              (λ fd bytes. true)
              5
              page_reads
              two_rounds
              (λ s. s)
              (λ s. s)
              one_open).0)
handle_web_socket_client-IsEnded_example =
    handle_web_socket_client-IsEnded (λ s. 1 ∷ []) (λ fd bytes. true) 5 page_reads two_rounds
      (λ s. s) (λ s. s) one_open
