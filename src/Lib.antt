-- ===== src/Lib.antt =====
-- Verification of wl2k-go, a library and a client for the Winlink 2000 radio mail network.
--
-- The program. Package fbb (fbb/) speaks the B2 forwarding protocol: two stations exchange messages over
-- a connection in turns. In its turn a station offers up to five messages as a block of proposal
-- lines with a checksum, the other side answers each with one character, and the accepted
-- messages are transferred in blocks of bytes with a checksum. Package lzhuf compresses the
-- messages, package mailbox keeps them, and the packages under transport are the connections.
--
-- The files.
--   Prelude, Prelude/*  numbers, lists and bits that the others share.
--   Go, Go/*            what the code uses of Go's standard library: errors and panics as values
--                       (Go.Result), strings, strconv (Atoi, ParseInt, %d, %02X), utf8, the Q
--                       encoding of package mime, stable sorting, and ReadMIMEHeader of
--                       net/textproto (Go 1.19), and path.Join.
--   Fbb.Error           the errors of the package, one constructor for each.
--   Fbb.Line            fbb/helpers.go: nextLine, errLine and cleanString.
--   Fbb.Proposal        fbb/proposal.go: the record, parseProposal, parseB2Proposal, precedence, and the line
--                       that sendOutbound prints for a proposal.
--   Fbb.Sorting         fbb/wl2k.go: sortProposals.
--   Fbb.Answer          fbb/b2f.go: writeProposalsAnswer and parseProposalAnswer.
--   Fbb.Transfer        fbb/b2f.go: writeCompressed and readCompressed.
--   Fbb.Block           fbb/b2f.go: the lines of a block, in sendOutbound and handleInbound.
--   Fbb.Address         fbb/message.go: Address and AddressFromString.
--   Fbb.Header          fbb/header.go: Header.Write, the access to values, and DecodeHeader.
--   Fbb.Message         fbb/message.go: ReadFrom, readSection, Write and ParseDate; Fbb.Message.Compose has
--                       NewMessage, the setters and Validate.
--   Fbb.Body            fbb/message_body.go: StringToBody.
--   Fbb.Handshake       fbb/handshake.go and fbb/secure.go: the SID, the line ;FW and the response to a
--                       challenge.
--   Fbb.Delivery        fbb/message.go and fbb/proposal.go: NewProposal, Message.Proposal, Proposal.Message and
--                       Proposal.Data; a message on its way from one side to the other.
--   Fbb.Session         fbb/wl2k.go, fbb/handshake.go and fbb/b2f.go: the state of a session, the handshake,
--                       the turns (handleOutbound, handleInbound) and Exchange.
--   Mailbox             mailbox/syncdir.go: DirHandler, its messages and files. Mailbox.Files is the
--                       interface of the file system: its calls, and what is relied on of them.
--   Ardop               transport/ardop/frame.go and crc16.go: the frames of a modem, and their checksum.
--   Agwpe               transport/ax25/agwpe/frame.go: headers and frames, and callsigns.
--   Agwpe.Kinds         transport/ax25/agwpe/frame_kinds.go: the frames of each kind; Port.write of port.go.
--   Lzhuf.Crc           lzhuf/crc.go: the table of the checksum and its loops.
--   Lzhuf.Position      lzhuf/lzhuf.go: the tables of the code for the upper bits of a position.
--   Lzhuf.Put           lzhuf/writer.go: putCode and encodeEnd.
--   Lzhuf.Read          lzhuf/bit_reader.go: ReadBits64.
--   Lzhuf.Tree          lzhuf/lzhuf.go: newLZHUFF, update and reconst.
--   Lzhuf.Coder         lzhuf/writer.go and lzhuf/reader.go: encodeChar, encodePosition, decodeChar and
--                       decodePosition, over the bits.
--   Lzhuf.Search        lzhuf/lzhuf.go: InitTree, InsertNode and DeleteNode.
--   Lzhuf.Writer        lzhuf/writer.go: NewWriter, Write, Close, advance and encode. A Token is what one call of
--                       encode writes.
--   Lzhuf.Reader        lzhuf/reader.go: NewReader, Read and Close. Its modules Window and Tokens say what tokens
--                       stand for and how they are coded.
--
-- How the code is modelled. Strings and byte slices are lists of numbers below 256 (Bytes). What has not been
-- read from the connection is such a list, and so is what has been written to it. A function that can fail
-- returns a Result: a value, an error, or a panic. Go's int is ℤ, and Atoi keeps to 64 bits. The handler of the
-- application (MBoxHandler), the messages of a session (Validate, Proposal, Message), Go's package gzip, the room
-- that a bytes.Buffer has in io.Copy, the decoding of encoded words, the charset package, the parsing and
-- printing of dates by package time, the digest MD5 and the texts of the errors that are sent to the other side
-- are parameters.
--
-- Fuel. The loops over the connection take fuel, and each round reads a byte at least, so more fuel than there
-- are bytes is enough; running out of it is an error of its own (out_of_fuel), which no Go function returns. A
-- walk in the Huffman tree takes one round for each entry of the table at most, and one in the search tree gets one
-- round for each place in the text buffer. A round of the loop of Reader.Read gives a byte at least, so it has
-- as many rounds as there is room. A loop over the bytes to send gets as much fuel as there are bytes.
--
-- The connection of package agwpe is a list of the pieces that single calls of Read see, since the code depends
-- on them. The reader of ARDOP frames takes the bytes as one list, and the count of bytes of the checksum that
-- its one call of Read gives.
--
-- The disk of a mailbox is a parameter, with the calls that the code makes and named laws for them. The laws take
-- two paths that differ as texts for two files. A real disk has more: there a file may also be reached by "./a", by
-- a symbolic link or by a hard link, and for such paths nothing is claimed.
--
-- A header is an association list in place of Go's map; its theorems are about the values of each key. A size
-- that is not negative is taken to fit the memory.
--
-- An array of the compression is a function of its index. Its files are below 2 GB, so a size or a position, an
-- int32 in the source, does not wrap around. A shift is repeated halving or doubling, and the words of 64 bits
-- drop what does not fit.
--
-- Choices. `sort.Sort` in sortProposals need not be stable; the model sorts stably, which is one of the orders
-- it may give. A map of message ids is iterated in the order of insertion; Go may choose another order. ToUpper
-- and EqualFold keep to ASCII. `fmt.Errorf` of a text from the other side is that text.
--
-- Not modelled: logging, the progress reports and their goroutines, robust mode, deadlines, failing writes and
-- closes, a Write behind Close; the chunks in which package bufio reads compressed data (all of it is summed up), the charset of a
-- body that is read (Charset and Body), the default paths of mailboxes, the catalog, the connections and
-- demultiplexer of agwpe, the commands and the control loop of the ARDOP modem, the other transports and the
-- rig control, which are files, sockets, devices and goroutines for the most part.
pub mod Prelude
pub mod Go
pub mod Fbb
pub mod Agwpe
pub mod Lzhuf
pub mod Mailbox
pub mod Ardop
