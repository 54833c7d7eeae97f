-- ===== src/Proxy/Socks/Handshake.antt =====
-- The SOCKS5 handshake when each reply of the proxy is read by itself: which replies establish it.
use avar.Base.{
  Bool, List, Option, [], arith, false, if◌then◌else◌, none, refl, some, sym, true, ℕ, ◌&&◌, ◌++◌,
  ◌↔◌, ◌∙◌, ◌∷◌, ◌≡◌, ◌≢◌,
}
use avar.Proxy.Credentials.{extract_proxy_credentials}
use avar.CString.{Text, is_some}
use avar.Proxy.{Environment}
use avar.Proxy.Socks.{
  ProxySocksCtx, proxy_socks5_handle_read, ProxySocksStage, auth_accepted, connect_accepted,
  connect_sent, done, failed, greeting_method, auth_sent, fail, greeting_sent, on_method,
  send_connect, Read, begin_ctx, proxy_socks5_begin,
}
use avar.Proxy.Socks.Replies.{
  Accepted, connect_ok, auth_ok, greeting_ok, greeting_ok-Accepted, method_given, method_ok,
}

abbrev pub at : ProxySocksStage → ProxySocksCtx → ProxySocksCtx
at stage ctx = record ctx { stage = stage }

failed≢done : failed ≢ done
failed≢done h = ground arith

module _ (env : Environment) (target_url : Text) where
  -- The calls of `proxy_socks5_handle_read` for successive replies: the context, and all that is sent.
  unfoldable pub read_all : ProxySocksCtx → List Text → ProxySocksCtx × Text
  unfolding proxy_socks5_handle_read
  read_all ctx [] = (ctx, [])
  read_all ctx (buf ∷ bufs) =
      let read = proxy_socks5_handle_read env buf target_url ctx in
      let (last, sent) = read_all read.ctx bufs in (last, read.sent ++ sent)

  read_all-failed :
      (ctx : ProxySocksCtx) (bufs : List Text) → (read_all (at failed ctx) bufs).0.stage ≡ failed
  unfolding read_all proxy_socks5_handle_read
  read_all-failed ctx [] = refl
  read_all-failed ctx (buf ∷ bufs) = read_all-failed ctx bufs

  read_all-done :
      (ctx : ProxySocksCtx) (bufs : List Text) → (read_all (at done ctx) bufs).0.stage ≡ done
  unfolding read_all proxy_socks5_handle_read
  read_all-done ctx [] = refl
  read_all-done ctx (buf ∷ bufs) = read_all-done ctx bufs

  connect_step :
      (ctx : ProxySocksCtx) (bufs : List Text) (b : Bool)
      → ((read_all
            (if b then record { result = true; ctx = at done ctx; sent = [] } else fail ctx).ctx
            bufs).0.stage
          ≡ done)
        ↔ (b ≡ true)
  connect_step ctx bufs true = (λ h. refl, λ h. read_all-done ctx bufs)
  connect_step ctx bufs false =
      (λ h. absurd (failed≢done (sym (read_all-failed ctx bufs) ∙ h)), λ h. ground arith)

  read_all-connect_ok :
      (ctx : ProxySocksCtx) (bufs : List Text)
      → ((read_all (at connect_sent ctx) bufs).0.stage ≡ done) ↔ (connect_ok bufs ≡ true)
  unfolding read_all proxy_socks5_handle_read
  read_all-connect_ok ctx [] = (λ h. ground arith, λ h. ground arith)
  read_all-connect_ok ctx (reply ∷ bufs) = connect_step ctx bufs (connect_accepted reply)

  auth_step :
      (ctx : ProxySocksCtx) (bufs : List Text) (b : Bool)
      → ((read_all (if b then send_connect env target_url ctx else fail ctx).ctx bufs).0.stage
          ≡ done)
        ↔ ((b && connect_ok bufs) ≡ true)
  unfolding send_connect
  auth_step ctx bufs true = read_all-connect_ok ctx bufs
  auth_step ctx bufs false =
      (λ h. absurd (failed≢done (sym (read_all-failed ctx bufs) ∙ h)), λ h. ground arith)

  read_all-auth_ok :
      (ctx : ProxySocksCtx) (bufs : List Text)
      → ((read_all (at auth_sent ctx) bufs).0.stage ≡ done) ↔ (auth_ok bufs ≡ true)
  unfolding read_all proxy_socks5_handle_read
  read_all-auth_ok ctx [] = (λ h. ground arith, λ h. ground arith)
  read_all-auth_ok ctx (status ∷ bufs) = auth_step ctx bufs (auth_accepted status)

  method_step :
      (ctx : ProxySocksCtx) (bufs : List Text) (method : ℕ)
      → ((read_all (on_method env target_url ctx method).ctx bufs).0.stage ≡ done)
        ↔ (method_ok ctx.has_auth method bufs ≡ true)
  unfolding on_method send_connect
  method_step ctx bufs method = (
    λ h. ground (
      arith,
      failed≢done,
      read_all-failed ctx bufs,
      read_all-auth_ok ctx bufs,
      read_all-connect_ok ctx bufs,
    ),
    λ h. ground (arith, read_all-auth_ok ctx bufs, read_all-connect_ok ctx bufs),
  )

  greeting_step :
      (ctx : ProxySocksCtx) (bufs : List Text) (o : Option ℕ)
      → ((read_all
            (elim o as (λ x. Read) [
              | none ↦ fail ctx
              | some method ↦ on_method env target_url ctx method
            ]).ctx
            bufs).0.stage
          ≡ done)
        ↔ (method_given ctx.has_auth bufs o ≡ true)
  greeting_step ctx bufs none =
      (λ h. absurd (failed≢done (sym (read_all-failed ctx bufs) ∙ h)), λ h. ground arith)
  greeting_step ctx bufs (some n) = method_step ctx bufs n

  read_all-greeting_ok :
      (ctx : ProxySocksCtx) (bufs : List Text)
      → ((read_all (at greeting_sent ctx) bufs).0.stage ≡ done)
        ↔ (greeting_ok ctx.has_auth bufs ≡ true)
  unfolding read_all proxy_socks5_handle_read
  read_all-greeting_ok ctx [] = (λ h. ground arith, λ h. ground arith)
  read_all-greeting_ok ctx (method ∷ bufs) =
      greeting_step (at greeting_sent ctx) bufs (greeting_method method)

  read_all-begin_ctx :
      (credentials : Option (Text × Text)) (bufs : List Text)
      → ((read_all (begin_ctx credentials) bufs).0.stage ≡ done)
        ↔ (greeting_ok (is_some credentials) bufs ≡ true)
  unfolding begin_ctx
  read_all-begin_ctx none bufs = read_all-greeting_ok (begin_ctx none) bufs
  read_all-begin_ctx (some (user, pass)) bufs =
      read_all-greeting_ok (begin_ctx (some (user, pass))) bufs

  -- From the context of proxy_socks5_begin, the calls of proxy_socks5_handle_read on a list of
  -- replies, one reply a call, end in the stage Done exactly if the replies are those with
  -- which RFC 1928 and RFC 1929 let a client through: method 0 and a positive answer to the
  -- connect request, or, where the proxy URL has credentials, method 2, a positive status and
  -- that answer.
  pub proxy_socks5_handshake_iff :
      (proxy_url : Option Text) (bufs : List Text)
      → ((read_all (proxy_socks5_begin proxy_url).0 bufs).0.stage ≡ done)
        ↔ Accepted (is_some (extract_proxy_credentials proxy_url 256 256)) bufs
  unfolding proxy_socks5_begin
  proxy_socks5_handshake_iff proxy_url bufs =
      let credentials = extract_proxy_credentials proxy_url 256 256 in
      let run = read_all-begin_ctx credentials bufs in
      let spec = greeting_ok-Accepted (is_some credentials) bufs in
      (λ h. spec.0 (run.0 h), λ a. run.1 (spec.1 a))
