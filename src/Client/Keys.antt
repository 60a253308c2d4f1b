-- ===== src/Client/Keys.antt =====
-- ClientOP.cpp: the client's side of agreeing on a key, checking one and giving one up.
use encrypted_transmission_d.Prelude.{
  ℕ, zero, suc, String, Bool, true, false, not, ◌||◌, Option, none, some, List, ℤ, pos, int_eq,
  is_empty, c_str, if◌then◌else◌,
}
use encrypted_transmission_d.Cache.{Node}
use encrypted_transmission_d.Packet.{
  ResultCode, result_success, cmd_key_agree_req, cmd_key_check_req, cmd_key_logout_req,
}
use encrypted_transmission_d.Codec.{
  Protobuf, key_agreement_info, key_check_info, key_logout_info, ResponseBody, key_op_resp,
  encode_request, decode_response,
}
use encrypted_transmission_d.Outside.{Outside}
use encrypted_transmission_d.Transport.{Network}
use encrypted_transmission_d.Client.Base.{
  ClientInfo, KeyFiles, Client, pure, ◌>>=◌, on_host, Exchanged, received, cache_read, cache_write,
  cache_update_status, build_key_header, converse,
}

-- strncpy into a zeroed array: the first bytes of a C string.
unfoldable pub strncpy : ℕ → String → String
strncpy zero s = ""
strncpy (suc n) String.[] = ""
strncpy (suc n) (String.◌∷◌ c s) = String.◌∷◌ c (strncpy n s)

abbrev pub is_success : ResultCode → Bool
is_success result_success = true
is_success _ = false

abbrev pub lacks_ids : Node → Bool
lacks_ids node = is_empty node.client_id || is_empty node.server_id

-- The node that keyAgreement writes: what does not fit an array is cut off.
unfoldable pub client_node : ClientInfo → ℤ → String → Node
client_node info key secret = record {
  status = pos 1;
  seckey_id = key;
  client_id = strncpy 11 (c_str info.client_id);
  server_id = strncpy 11 (c_str info.server_id);
  seckey = strncpy 127 (c_str secret);
}

module _ {E H : Type 0} (o : Outside E H) (p : Protobuf (List ℕ)) (info : ClientInfo) where
  abbrev pub disable_key : Client H (Unit {0})
  disable_key = do _ ← cache_update_status o info (pos 0); pure tt

  -- keyVerification on the reply, and keyLogout on it.
  unfoldable pub check_reply : ResponseBody → Client H (Unit {0})
  check_reply (key_op_resp code message key secret) =
      if is_success code then pure tt else disable_key
  check_reply _ = pure tt

  unfoldable pub accept_check : Exchanged → Client H (Unit {0})
  accept_check (received bytes) = check_reply (decode_response p bytes).body
  accept_check _ = pure tt

  unfoldable pub logout_reply : ResponseBody → Client H (Unit {0})
  logout_reply (key_op_resp code message key secret) =
      if is_success code then disable_key else pure tt
  logout_reply _ = pure tt

  unfoldable pub accept_logout : Exchanged → Client H (Unit {0})
  accept_logout (received bytes) = logout_reply (decode_response p bytes).body
  accept_logout _ = pure tt

module _ {E H : Type 0} (o : Outside E H) (p : Protobuf (List ℕ)) (net : Network H)
    (signals : H → ℕ) (info : ClientInfo) where
  unfoldable pub request_check : Node → Client H (Unit {0})
  request_check node = do
    header ← build_key_header o info cmd_key_check_req
    converse net signals info (encode_request p (key_check_info header node.seckey_id))
        (accept_check o p info)

  unfoldable pub key_verification : Client H (Unit {0})
  key_verification = do
    node ← cache_read o info
    if lacks_ids node || int_eq node.status (pos 0) then pure tt else request_check node

  unfoldable pub request_logout : Node → Client H (Unit {0})
  request_logout node = do
    header ← build_key_header o info cmd_key_logout_req
    converse net signals info (encode_request p (key_logout_info header node.seckey_id))
        (accept_logout o p info)

  unfoldable pub key_logout : Client H (Unit {0})
  key_logout = do
    node ← cache_read o info
    if int_eq node.status (pos 1) then request_logout node else pure tt

module _ {E H : Type 0} (o : Outside E H) (p : Protobuf (List ℕ)) (files : KeyFiles H)
    (info : ClientInfo) where
  -- keyAgreement once the server has answered success.
  unfoldable pub store_agreed : ℤ → String → Client H Bool
  store_agreed key secret = do
    raw ← on_host (files.rsa_private_decrypt secret)
    _ ← cache_write o (client_node info key (o.base64_encode raw))
    node ← cache_read o info
    pure (not (lacks_ids node))

  unfoldable pub agree_reply : ResponseBody → Client H Bool
  agree_reply (key_op_resp code message key secret) =
      if is_success code then store_agreed key secret else pure false
  agree_reply _ = pure false

  unfoldable pub accept_agreement : Exchanged → Client H Bool
  accept_agreement (received bytes) = agree_reply (decode_response p bytes).body
  accept_agreement _ = pure false

module _ {E H : Type 0} (o : Outside E H) (p : Protobuf (List ℕ)) (net : Network H)
    (signals : H → ℕ) (files : KeyFiles H) (info : ClientInfo) where
  unfoldable pub request_agreement : Option String → Client H Bool
  request_agreement none = pure false
  request_agreement (some public_key) = do
    header ← build_key_header o info cmd_key_agree_req
    sign ← on_host (files.rsa_sign (o.sha256 public_key))
    converse net signals info (encode_request p (key_agreement_info header public_key sign))
        (accept_agreement o p files info)

  unfoldable pub key_agreement : Client H Bool
  key_agreement = do
    _ ← on_host (λ h. (tt, files.generate_key_pair h))
    public_key ← on_host files.read_public_key
    request_agreement public_key
