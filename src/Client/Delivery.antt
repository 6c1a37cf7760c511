-- ===== src/Client/Delivery.antt =====
-- A large file from the client's disk to the server's: the client's loop, the connection, and the
-- server's loop.
use computer_network_lab.Prelude.{
  ℕ, ◌≤◌, ◌≡◌, sym, ap, ◌∙◌, ◌⊎◌, inl, inr, Option, some, List, [], ◌∷◌, ◌++◌, append-nil, arith,
  Bytes, length, length-append,
}
use computer_network_lab.FileSystem.{FileSystem, IsPosix}
use computer_network_lab.Server.Transfer.{receive_loop}
use computer_network_lab.Server.Streams.{stream, receive_loop-IsReceived}
use computer_network_lab.Client.Transfer.{all_sent, send_file}
use computer_network_lab.Client.Sending.{AllTaken, send_file_whole}

-- A prefix that is as long as the whole is the whole.
prefix_whole :
    (whole written rest : Bytes)
    → whole ≡ written ++ rest
    → (length whole ≤ length written) ⊎ (rest ≡ [])
    → written ≡ whole
prefix_whole whole written [] e h = sym (append-nil written) ∙ sym e
prefix_whole whole written (c ∷ rest) e (inl k) =
    absurd (omega (arith, ap length e, length-append written (c ∷ rest)))
prefix_whole whole written (c ∷ rest) e (inr k) = cc

-- What the server's loop has written of a stream as long as the size that it expects.
pub received_whole :
    (fs : FileSystem) (laws : IsPosix fs) (q content : Bytes) (chunks : List Bytes) (d : fs.Disk)
    → fs.regular d q ≡ some []
    → stream chunks ≡ content
    → let r = receive_loop fs q (length content) chunks 0 d in
      (fs.regular r.1 q ≡ some content) × (r.0 ≡ length content)
received_whole fs laws q content chunks d empty e =
    let t = receive_loop-IsReceived fs laws q (length content) chunks 0 d empty in
    let whole : t.written ≡ content =
      prefix_whole content t.written t.rest (sym e ∙ t.prefix)
        (elim t.enough [ inl k ↦ inl (omega (arith, t.count)) | inr k ↦ inr k ]) in
    (t.content ∙ ap some whole, t.count ∙ omega (arith, ap length whole))

-- A large file arrives whole: the client sends over a connection that takes all that it is given,
-- and that delivers what it took in any pieces; the server, told the file's size, writes them into
-- a new file. Both loops end, the client's without an error, and the server has the client's content
-- and counts its bytes.
pub send_file-receive_loop :
    (fs : FileSystem) (laws : IsPosix fs) (q content junk : Bytes) (results : List (Option ℕ))
    (chunks : List Bytes) (d : fs.Disk)
    → AllTaken results
    → fs.regular d q ≡ some []
    → stream chunks ≡ (send_file results (length content) content junk).1
    → let r = receive_loop fs q (length content) chunks 0 d in
      ((send_file results (length content) content junk).0 ≡ all_sent)
      × (fs.regular r.1 q ≡ some content)
      × (r.0 ≡ length content)
send_file-receive_loop fs laws q content junk results chunks d taken empty delivered =
    let sent = send_file_whole results content junk taken in
    let (whole, count) =
      received_whole fs laws q content chunks d empty (delivered ∙ ap (λ p. p.1) sent) in
    (ap (λ p. p.0) sent, whole, count)
