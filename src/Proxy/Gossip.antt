-- ===== src/Proxy/Gossip.antt =====
-- protocol/proxy/proxy.go: the negotiation message's way through the caller, who encrypts it, and the
-- destination, who decrypts it (HandleEncrypt, HandleDecrypt, EncryptGossip, DecryptGossip).
use white_noise.Prelude.{if◌then◌else◌, none, some, [], Bytes}
use white_noise.Errors.{
  Error, timeout, client_decrypt, caller_encrypt, session_missing, external, Outcome, ok, err,
  ◌>>=◌,
}
use white_noise.Wire.{decoded, malformed, encode_msg_id_hash, or_nil}
use white_noise.Services.{Act, give, bind, open_and_write, await_ack}
use white_noise.Id
use white_noise.Proxy.State.{
  Reqtype, decrypt_gossip, neg_plain_text, Request, ProxyEnv, Manager, get_circuit_task,
}

module _ (env : ProxyEnv) where
  open env use {around, hashes, codecs}

  -- HandleDecrypt
  unfoldable pub handle_decrypt : Request → Outcome Bytes
  handle_decrypt request = elim (codecs.decrypt.unmarshal request.payload) [
    | malformed e _ ↦ err (external e)
    | decoded req ↦ env.ecies_decrypt req.cypher >>= λ plain.
        elim (codecs.negotiate.unmarshal plain) [
          | malformed e _ ↦ err (external e)
          | decoded _ ↦ ok plain
        ]
  ]

  -- HandleEncrypt
  unfoldable pub handle_encrypt : Request → Manager → Outcome Bytes
  handle_encrypt request m = elim (codecs.neg_plaintext.unmarshal request.payload) [
    | malformed e _ ↦ err (external e)
    | decoded msg ↦ elim (get_circuit_task m msg.session_id) [
      | none ↦ err session_missing
      | some white_noise ↦
          Id.public_key white_noise >>= λ key. env.ecies_encrypt key.0 key.1 msg.neg
    ]
  ]

  -- A request with its id set, from this node.
  abbrev pub identified : Reqtype → Bytes → Request
  identified reqtype payload =
      let bare : Request = record {
        req_id = [];
        from = env.id_string env.host_id;
        reqtype = reqtype;
        payload = payload;
      } in
      record bare {
        req_id = encode_msg_id_hash hashes (hashes.sha256 (or_nil (codecs.request.marshal bare)));
      }

  -- A request to a peer, and the wait for its ack: the ack's data.
  abbrev pub ask_peer : Request → Bytes → Error → Act (Outcome Bytes)
  ask_peer req peer refused =
      bind (open_and_write around peer (or_nil (codecs.request.marshal req))) λ e. elim e [
        | some e' ↦ give (err e')
        | none ↦ bind (await_ack around req.req_id) λ r. elim r [
          | none ↦ give (err timeout)
          | some result ↦ give (if result.0 then ok result.1 else err refused)
        ]
      ]

  -- DecryptGossip: the session and the joint node that the destination read.
  unfoldable pub decrypt_gossip_at : Bytes → Bytes → Act (Outcome (Bytes × Bytes))
  decrypt_gossip_at des cypher =
      let bytes =
        or_nil
          (codecs.decrypt.marshal (record { destination = env.id_string des; cypher = cypher })) in
      bind (ask_peer (identified decrypt_gossip bytes) des client_decrypt) λ r. give (
        r >>= λ plain. elim (codecs.negotiate.unmarshal plain) [
          | malformed e _ ↦ err (external e)
          | decoded neg ↦ ok (neg.session_id, neg.join)
        ])

  -- EncryptGossip
  unfoldable pub encrypt_gossip : Bytes → Bytes → Bytes → Act (Outcome Bytes)
  encrypt_gossip plaintext caller session_id =
      let bytes =
        or_nil
          (codecs.neg_plaintext.marshal (record { session_id = session_id; neg = plaintext })) in
      ask_peer (identified neg_plain_text bytes) caller caller_encrypt
