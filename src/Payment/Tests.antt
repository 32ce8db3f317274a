-- ===== src/Payment/Tests.antt =====
-- A payment request in the shop of Database/Tests.antt, with the token of Jwt/Tests.antt.
use paid_server.Base.{◌⊎◌, refl, text, [], ◌∷◌}
use paid_server.Database.Tests.{shop}
use paid_server.Database.Finalize.Progress.{calm}
use paid_server.Jwt.Tests.{toy_json, toy_crypto}
use paid_server.Payment.World.{World, Config}
use paid_server.Payment.Steps.{Idle, Kept}
use paid_server.Payment.Pay.{PayRequest, pay}
use paid_server.Payment.Pay.Authorized.{Paid}
use paid_server.Payment.Pay.Guarded.{pay-Paid}

abbrev pub toy_config : Config
toy_config = record {
  password_secret = text "pepper";
  email_hash_secret = text "e";
  id_card_hash_secret = text "i";
  login_session_ttl_seconds = 3600;
  payment_session_ttl_seconds = 900;
  nginx_host = text "shop";
  nginx_port = 80;
  scan_page_path = text "/scan";
  jwt_algorithm = text "HS256";
  jwt_secret = text "CCCC";
  qr_token_ttl_seconds = 900;
  clock_skew_seconds = 30;
}

abbrev request : PayRequest
request = record {
  request_id = b'r' ∷ [];
  qr_token = text "AAAA.BBBB.CCCC";
  login_password = text "secret";
}

abbrev pub world : World
world = record {
  db = calm shop 5 2;
  redis = record { entries = []; faults = [] };
  clock = 500;
  rands = [];
  notified = [];
}

world-Idle : Idle shop 5 500 [] world
world-Idle = record {
  db = record { tables = refl; backup = refl; now = refl; heard = tt };
  clock_kept = refl;
  log_kept = refl;
}

pay-Paid_example :
    Kept shop [] (pay toy_crypto toy_json toy_config request world).1
    ⊎ Paid toy_crypto toy_json toy_config request shop 5 500 []
        (pay toy_crypto toy_json toy_config request world).1
pay-Paid_example = pay-Paid toy_crypto toy_json toy_config request shop 5 500 [] world world-Idle
