-- ===== src/Proxy/Socks.antt =====
-- The SOCKS5 client of src/http_proxy.c: what is sent to the proxy, and the stages of the handshake.
-- A call answers the bytes that it sends beside its result.
use avar.Base.{
  Bool, Option, [], false, if◌then◌else◌, length, ltb, none, not, some, true, ℕ, ◌%◌, ◌&&◌, ◌++◌,
  ◌/◌, ◌==◌, ◌||◌, ◌∷◌,
}
use avar.CString.{Text}
use avar.Proxy.{Environment, is_empty, proxy_target_is_https}
use avar.Proxy.Credentials.{extract_proxy_credentials}
pub mod Replies
pub mod Handshake

pub data ProxySocksStage : Type 0 where
  idle greeting_sent auth_sent connect_sent done failed : ProxySocksStage

pub record ProxySocksCtx : Type 0 where
  pub stage : ProxySocksStage
  pub username : Text
  pub password : Text
  pub has_auth : Bool

unfoldable pub proxy_socks5_send_greeting : ProxySocksCtx → Text
proxy_socks5_send_greeting ctx = if ctx.has_auth then 5 ∷ 2 ∷ 0 ∷ 2 ∷ [] else 5 ∷ 1 ∷ 0 ∷ []

unfoldable pub proxy_socks5_send_auth : ProxySocksCtx → Text
proxy_socks5_send_auth ctx =
    let ulen = length ctx.username in
    let plen = length ctx.password in
    if ltb 255 ulen || ltb 255 plen then [] else 1 ∷ ulen ∷ (ctx.username ++ (plen ∷ ctx.password))

-- The context that `proxy_socks5_begin` fills.
unfoldable pub begin_ctx : Option (Text × Text) → ProxySocksCtx
begin_ctx none = record { stage = greeting_sent; username = []; password = []; has_auth = false }
begin_ctx (some (user, pass)) = record {
  stage = greeting_sent;
  username = user;
  password = pass;
  has_auth = true;
}

-- The context and what is sent.
unfoldable pub proxy_socks5_begin : Option Text → ProxySocksCtx × Text
unfolding begin_ctx proxy_socks5_send_greeting
proxy_socks5_begin proxy_url =
    let ctx = begin_ctx (extract_proxy_credentials proxy_url 256 256) in
    (ctx, proxy_socks5_send_greeting ctx)

-- What a call of `proxy_socks5_handle_read` answers, leaves and sends.
pub record Read : Type 0 where
  pub result : Bool
  pub ctx : ProxySocksCtx
  pub sent : Text

abbrev pub fail : ProxySocksCtx → Read
fail ctx = record { result = false; ctx = record ctx { stage = failed }; sent = [] }

-- `method`, where `len` is at least 2 and the first byte is 0x05.
unfoldable pub greeting_method : Text → Option ℕ
greeting_method (b ∷ method ∷ rest) = if b == 5 then some method else none
greeting_method _ = none

unfoldable pub auth_accepted : Text → Bool
auth_accepted (b ∷ status ∷ rest) = b == 1 && status == 0
auth_accepted _ = false

unfoldable pub connect_accepted : Text → Bool
connect_accepted (b ∷ reply ∷ reserved ∷ address_type ∷ rest) = b == 5 && reply == 0
connect_accepted _ = false

module _ (env : Environment) where
  unfoldable pub proxy_socks5_send_connect : Text → Text
  proxy_socks5_send_connect target_url =
      let host = env.url_host target_url in
      let named = env.url_port target_url in
      let port =
        if named == 0 then if proxy_target_is_https target_url then 443 else 80 else named in
      if is_empty host || ltb 255 (length host)
      then []
      else 5 ∷ 1 ∷ 0 ∷ 3 ∷ length host ∷ (host ++ (port / 256 % 256 ∷ port % 256 ∷ []))

  unfoldable pub send_connect : Text → ProxySocksCtx → Read
  unfolding proxy_socks5_send_connect
  send_connect target_url ctx = record {
    result = false;
    ctx = record ctx { stage = connect_sent };
    sent = proxy_socks5_send_connect target_url;
  }

  unfoldable pub on_method : Text → ProxySocksCtx → ℕ → Read
  unfolding send_connect proxy_socks5_send_auth
  on_method target_url ctx method =
      if method == 255
      then fail ctx
      else if method == 2
      then if not ctx.has_auth then fail ctx else record {
        result = false;
        ctx = record ctx { stage = auth_sent };
        sent = proxy_socks5_send_auth ctx;
      }
      else if not (method == 0)
      then fail ctx
      else send_connect target_url ctx

  unfoldable pub proxy_socks5_handle_read : Text → Text → ProxySocksCtx → Read
  unfolding on_method send_connect greeting_method auth_accepted connect_accepted
  proxy_socks5_handle_read buf target_url ctx = elim ctx.stage [
    | greeting_sent ↦ elim (greeting_method buf) [
      | none ↦ fail ctx
      | some method ↦ on_method target_url ctx method
    ]
    | auth_sent ↦ if auth_accepted buf then send_connect target_url ctx else fail ctx
    | connect_sent ↦
        if connect_accepted buf
        then record { result = true; ctx = record ctx { stage = done }; sent = [] }
        else fail ctx
    | done ↦ record { result = true; ctx = ctx; sent = [] }
    | failed ↦ record { result = false; ctx = ctx; sent = [] }
    | idle ↦ record { result = false; ctx = ctx; sent = [] }
  ]
