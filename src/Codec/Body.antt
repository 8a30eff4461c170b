-- ===== src/Codec/Body.antt =====
-- `BodyEncoder` of src/codec/encoder/body.rs and `BodyDecoder` of src/codec/decoder/body.rs: frame bodies
-- that go out as messages, and frames that come in as bodies.
use raknet_rs.Prelude.{◌≡◌, refl}
use raknet_rs.Prelude.Outcome.{Outcome, ok, panic, ◌>>=◌}
use raknet_rs.Packet.Buf.{Buf}
use raknet_rs.Packet.Reliability.{Reliability, unreliable, reliable, reliable_ordered}
use raknet_rs.Packet.Frame.{Frame, FrameSet}
use raknet_rs.Packet.Body
use raknet_rs.Packet.Body.{
  FrameBody, connected_ping, connected_pong, connection_request, connection_request_accepted,
  new_incoming_connection, disconnect_notification, detect_lost_connections, user,
}
use raknet_rs.Packet.Body.RoundTrip.{IsValid, read-write_body}
use raknet_rs.Codec.Fragment.{Message, medium}

-- The reliability of a body; a user's packet is not to be sent this way.
unfoldable pub reliability_of : FrameBody → Outcome Reliability
reliability_of (connected_ping t) = ok unreliable
reliability_of (connected_pong t u) = ok unreliable
reliability_of (connection_request g t e) = ok reliable_ordered
reliability_of (connection_request_accepted a i addrs t u) = ok reliable
reliability_of (new_incoming_connection a addrs t u) = ok reliable_ordered
reliability_of disconnect_notification = ok reliable
reliability_of detect_lost_connections = ok reliable
reliability_of (user content) = panic

abbrev pub IsInternal : FrameBody → Type 0
IsInternal (user content) = ⊥
IsInternal body = Unit

module _ ⦃b : Buf⦄ where
  -- `encode`
  unfoldable pub encode : FrameBody → Outcome Message
  encode body = do
    reliability ← reliability_of body
    ok (record {
      reliability = reliability;
      order_channel = 0;
      priority = medium;
      content = Body.write body;
    })

  -- `poll_next` of the decoder, on a frame that it is given.
  unfoldable pub decode : FrameSet Frame → Outcome FrameBody
  decode s = Body.read s.set.body

  internal-reliability :
      (body : FrameBody) → IsInternal body → (r : Reliability) × (reliability_of body ≡ ok r)
  unfolding reliability_of
  internal-reliability (connected_ping t) i = (_, refl)
  internal-reliability (connected_pong t u) i = (_, refl)
  internal-reliability (connection_request g t e) i = (_, refl)
  internal-reliability (connection_request_accepted a j addrs t u) i = (_, refl)
  internal-reliability (new_incoming_connection a addrs t u) i = (_, refl)
  internal-reliability disconnect_notification i = (_, refl)
  internal-reliability detect_lost_connections i = (_, refl)
  internal-reliability (user content) i = absurd i

  -- A body in the ranges of its fields, other than a user's packet, is encoded to a message without a
  -- panic, and a frame with that message's content is decoded to the body.
  pub decode-encode :
      (body : FrameBody) (s : FrameSet Frame)
      → IsValid body
      → IsInternal body
      → (msg : Message) × (encode body ≡ ok msg)
        × (decode (record s { set = record s.set { body = msg.content } }) ≡ ok body)
  unfolding encode decode
  decode-encode body s v i =
      let (r, e) = internal-reliability body i in
      (
        record { reliability = r; order_channel = 0; priority = medium; content = Body.write body },
        rw e refl,
        read-write_body body v,
      )
